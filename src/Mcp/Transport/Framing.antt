-- ===== src/Mcp/Transport/Framing.antt =====
-- ReadMessage and WriteMessage of internal/mcp/transport: how bytes are cut into messages.
use flashgate_mcp.Base.{
  ℕ, ◌+◌, ◌<◌, ◌≤◌, ◌≡◌, ◌≢◌, refl, ◌∙◌, List, [], ◌∷◌, ◌++◌, length, length-append, arith, All,
  append_assoc, subst, ◌⊎◌,
}
use flashgate_mcp.Base.Result.{ok, err}
use flashgate_mcp.Mcp.Transport.{
  Transport, message_too_large, discard_line, read_line, read_message, write_payload, write_message,
  write_message_unbounded,
}

-- Bytes of one line, without its end.
abbrev pub NoNewline : List ℕ → Type 0
NoNewline = All (λ b. b ≢ b'\n')

discard_line-append : (m rest : List ℕ) → NoNewline m → discard_line (m ++ b'\n' ∷ rest) ≡ rest
unfolding discard_line
discard_line-append [] rest h = refl
discard_line-append (b ∷ m) rest h = ground (arith, h.0, discard_line-append m rest h.1)

length-snoc : (line : List ℕ) (b : ℕ) → length (line ++ b ∷ []) ≡ length line + 1
length-snoc line b = length-append line (b ∷ [])

abbrev pub Fits : ℕ → ℕ → Type 0
Fits limit n = (limit ≡ 0) ⊎ (n < limit)

-- A line that fits is read with its end, and the rest stays.
read_line-Fits :
    (limit : ℕ) (line m rest : List ℕ)
    → NoNewline m
    → Fits limit (length line + length m)
    → read_line limit line (m ++ b'\n' ∷ rest) ≡ (ok (line ++ (m ++ b'\n' ∷ [])), rest)
unfolding read_line
read_line-Fits limit line [] rest h fits = ground (arith, length-snoc line b'\n')
read_line-Fits limit line (b ∷ m) rest h fits =
    let n : length (line ++ b ∷ []) ≡ length line + 1 = length-snoc line b in
    ground (
      arith,
      n,
      h.0,
      append_assoc line (b ∷ []) (m ++ b'\n' ∷ []),
      read_line-Fits limit (line ++ b ∷ []) m rest h.1,
    )

-- The end of a line that is too long is passed over.
read_line-long :
    (limit : ℕ) (line m rest : List ℕ)
    → NoNewline m
    → 0 < limit
    → length line ≤ limit
    → limit < length line + length m
    → read_line limit line (m ++ b'\n' ∷ rest) ≡ (err message_too_large, rest)
unfolding read_line
read_line-long limit line [] rest h pos low high = absurd (omega arith)
read_line-long limit line (b ∷ m) rest h pos low high =
    let n : length (line ++ b ∷ []) ≡ length line + 1 = length-snoc line b in
    ground (
      arith,
      n,
      h.0,
      discard_line-append m rest h.1,
      read_line-long limit (line ++ b ∷ []) m rest h.1 pos,
    )

-- Where the end of the line itself is the byte too much, the next line is passed over too.
read_line-exact :
    (limit : ℕ) (line m rest : List ℕ)
    → NoNewline m
    → 0 < limit
    → length line + length m ≡ limit
    → read_line limit line (m ++ b'\n' ∷ rest) ≡ (err message_too_large, discard_line rest)
unfolding read_line
read_line-exact limit line [] rest h pos e = ground (arith, length-snoc line b'\n')
read_line-exact limit line (b ∷ m) rest h pos e =
    let n : length (line ++ b ∷ []) ≡ length line + 1 = length-snoc line b in
    ground (arith, n, h.0, read_line-exact limit (line ++ b ∷ []) m rest h.1 pos)

module _ (t : Transport) (m rest : List ℕ) (h : NoNewline m) (i : t.input ≡ m ++ b'\n' ∷ rest) where
  -- Where the input begins with a line whose bytes are fewer than the limit, or with any line and
  -- there is no limit, ReadMessage returns the line with its end, and the input goes on behind it.
  pub read_message-Fits :
      Fits t.max_read_bytes (length m)
      → read_message t ≡ (ok (m ++ b'\n' ∷ []), record t { input = rest })
  unfolding read_message
  read_message-Fits fits = rw (
    i,
    read_line-Fits t.max_read_bytes [] m rest h (subst (Fits t.max_read_bytes) (omega arith) fits),
  )

  -- Where there is a limit and the input begins with a line that has more bytes than the limit,
  -- ReadMessage refuses it, and the input goes on behind it.
  pub read_message-long :
      0 < t.max_read_bytes
      → t.max_read_bytes < length m
      → read_message t ≡ (err message_too_large, record t { input = rest })
  unfolding read_message
  read_message-long pos long =
      rw (i, read_line-long t.max_read_bytes [] m rest h pos (omega arith) (omega arith))

  -- Where there is a limit and the input begins with a line that has exactly as many bytes as the
  -- limit, ReadMessage refuses it, and the line behind it is lost.
  pub read_message-exact :
      (next more : List ℕ)
      → 0 < t.max_read_bytes
      → length m ≡ t.max_read_bytes
      → NoNewline next
      → rest ≡ next ++ b'\n' ∷ more
      → read_message t ≡ (err message_too_large, record t { input = more })
  unfolding read_message
  read_message-exact next more pos e hn r = rw (
    i,
    read_line-exact t.max_read_bytes [] m rest h pos (omega arith),
    r,
    discard_line-append next more hn,
  )

pub write_message-output :
    (t : Transport) (payload : List ℕ)
    → (write_message t payload).0 ≡ ok tt
    → (write_message t payload).1.output ≡ t.output ++ (payload ++ b'\n' ∷ [])
unfolding write_message write_payload
write_message-output t payload h = ground arith

pub write_message_unbounded-output :
    (t : Transport) (payload : List ℕ)
    → (write_message_unbounded t payload).0 ≡ ok tt
    → (write_message_unbounded t payload).1.output ≡ t.output ++ (payload ++ b'\n' ∷ [])
unfolding write_message_unbounded write_payload
write_message_unbounded-output t payload h = ground arith

-- A payload of one line that was the first to be written is read back, with the end of its line,
-- by a reader whose limit is larger than the payload, or that has none.
pub write-read :
    (t : Transport) (payload : List ℕ) (reader : Transport) (rest : List ℕ)
    → NoNewline payload
    → (write_message t payload).0 ≡ ok tt
    → t.output ≡ []
    → reader.input ≡ (write_message t payload).1.output ++ rest
    → Fits reader.max_read_bytes (length payload)
    → read_message reader ≡ (ok (payload ++ b'\n' ∷ []), record reader { input = rest })
write-read t payload reader rest h w o i fits =
    read_message-Fits reader payload rest h
      (i ∙ rw (write_message-output t payload w, o) (append_assoc payload (b'\n' ∷ []) rest)) fits
