-- ===== src/Mcp/Transport/Tests.antt =====
-- Examples for the transport.
use flashgate_mcp.Base.{ℕ, ◌≡◌, inr, refl, false, [], ◌∷◌, ◌++◌, codes, arith}
use flashgate_mcp.Base.Result.{ok, err}
use flashgate_mcp.Mcp.Transport.{Transport, message_too_large, read_message, write_message}
use flashgate_mcp.Mcp.Transport.Framing.{read_message-exact, write-read}

-- A reader of the lines "hi" and "you".
abbrev reader : ℕ → Transport
reader limit = record {
  input = codes "hi" ++ b'\n' ∷ codes "you" ++ b'\n' ∷ [];
  output = [];
  broken = false;
  max_read_bytes = limit;
  max_write_bytes = 0;
}

read_message-exact_example :
    read_message (reader 2) ≡ (err message_too_large, record (reader 2) { input = [] })
read_message-exact_example =
    read_message-exact (reader 2) (codes "hi") (codes "you" ++ b'\n' ∷ [])
      (ground arith, (ground arith, tt)) refl (codes "you") [] (omega arith) refl
      (ground arith, (ground arith, (ground arith, tt))) refl

abbrev writer : Transport
writer = record (reader 0) { input = [] }

write-read_example :
    read_message (reader 3)
    ≡ (ok (codes "hi" ++ b'\n' ∷ []), record (reader 3) { input = codes "you" ++ b'\n' ∷ [] })
unfolding write_message
write-read_example =
    write-read writer (codes "hi") (reader 3) (codes "you" ++ b'\n' ∷ [])
      (ground arith, (ground arith, tt)) refl refl refl (inr (omega arith))
