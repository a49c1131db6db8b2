-- ===== src/Mcp/Transport.antt =====
-- internal/mcp/transport: one message to a line of bytes.
pub mod Framing
pub mod Progress
mod Tests
use flashgate_mcp.Base.{
  ℕ, suc, ◌+◌, Bool, true, false, ◌&&◌, List, [], ◌∷◌, ◌++◌, ◌==◌, ltb, length, if◌then◌else◌,
}
use flashgate_mcp.Base.Result.{Result, ok, err}

pub data TransportError : Type 0 where
  end_of_input message_too_large response_too_large write_failed : TransportError

-- The bytes that are still to be read and those that were written. A limit of 0 is none.
pub record Transport : Type 0 where
  pub input : List ℕ
  pub output : List ℕ
  pub broken : Bool
  pub max_read_bytes : ℕ
  pub max_write_bytes : ℕ

unfoldable pub new_with_limits : List ℕ → Bool → ℕ → ℕ → Transport
new_with_limits input broken max_read_bytes max_write_bytes = record {
  input = input;
  output = [];
  broken = broken;
  max_read_bytes = max_read_bytes;
  max_write_bytes = max_write_bytes;
}

pub new_transport : List ℕ → Bool → Transport
unfolding new_with_limits
new_transport input broken = new_with_limits input broken 0 0

unfoldable pub discard_line : List ℕ → List ℕ
discard_line [] = []
discard_line (b ∷ bs) = let rest = discard_line bs in if b == b'\n' then bs else rest

-- The loop of `ReadMessage`; `line` is what was read of the line. With the result comes the rest
-- of the input.
unfoldable pub read_line : ℕ → List ℕ → List ℕ → Result TransportError (List ℕ) × List ℕ
unfolding discard_line
read_line limit line [] = (err end_of_input, [])
read_line limit line (b ∷ bs) =
    let more = read_line limit (line ++ b ∷ []) bs in
    if ltb 0 limit && ltb limit (length (line ++ b ∷ []))
    then (err message_too_large, discard_line bs)
    else if b == b'\n'
    then (ok (line ++ b ∷ []), bs)
    else more

unfoldable pub read_message : Transport → Result TransportError (List ℕ) × Transport
unfolding read_line
read_message t =
    let (r, rest) = read_line t.max_read_bytes [] t.input in (r, record t { input = rest })

-- `payload` is what `json.Marshal` made of the value.
unfoldable pub write_payload :
    Transport → List ℕ → Bool → Result TransportError (Unit {0}) × Transport
write_payload t payload enforce_limit =
    if enforce_limit && (ltb 0 t.max_write_bytes && ltb t.max_write_bytes (length payload + 1))
    then (err response_too_large, t)
    else if t.broken
    then (err write_failed, t)
    else (ok tt, record t { output = t.output ++ (payload ++ b'\n' ∷ []) })

unfoldable pub write_message : Transport → List ℕ → Result TransportError (Unit {0}) × Transport
unfolding write_payload
write_message t payload = write_payload t payload true

unfoldable pub write_message_unbounded :
    Transport → List ℕ → Result TransportError (Unit {0}) × Transport
unfolding write_payload
write_message_unbounded t payload = write_payload t payload false
