-- ===== src/Mcp/Transport/Progress.antt =====
-- ReadMessage and WriteMessage of internal/mcp/transport: the input that they use up.
use flashgate_mcp.Base.{ℕ, ◌<◌, ◌≤◌, ◌≡◌, refl, List, [], ◌∷◌, ◌++◌, length, arith, inl, ◌⊎◌}
use flashgate_mcp.Base.Result.{err}
use flashgate_mcp.Mcp.Transport.{
  Transport, end_of_input, discard_line, read_line, read_message, write_payload, write_message,
  write_message_unbounded,
}

discard_line-length : (bs : List ℕ) → length (discard_line bs) ≤ length bs
unfolding discard_line
discard_line-length [] = omega arith
discard_line-length (b ∷ bs) = ground (arith, discard_line-length bs)

-- Unless the input is at its end, a read consumes a byte at least.
read_line-length :
    (limit : ℕ) (line bs : List ℕ)
    → ((read_line limit line bs).0 ≡ err end_of_input)
      ⊎ (length (read_line limit line bs).1 < length bs)
unfolding read_line
read_line-length limit line [] = inl refl
read_line-length limit line (b ∷ bs) =
    ground (arith, discard_line-length bs, read_line-length limit (line ++ b ∷ []) bs)

pub read_message-progress :
    (t : Transport)
    → ((read_message t).0 ≡ err end_of_input) ⊎ (length (read_message t).1.input < length t.input)
unfolding read_message
read_message-progress t = read_line-length t.max_read_bytes [] t.input

pub write_message-input :
    (t : Transport) (payload : List ℕ) → (write_message t payload).1.input ≡ t.input
unfolding write_message write_payload
write_message-input t payload = ground arith

pub write_message_unbounded-input :
    (t : Transport) (payload : List ℕ) → (write_message_unbounded t payload).1.input ≡ t.input
unfolding write_message_unbounded write_payload
write_message_unbounded-input t payload = ground arith
