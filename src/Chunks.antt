-- ===== src/Chunks.antt =====
-- Decoding a chunked request body (`_read_chunked_body` of auto_squid/router.py). The reader is the
-- list of the bytes that the client still sends. `int(..., 16)` is an argument, `none` where it
-- raises or gives a negative number, which `readexactly` refuses; an exception is `none`. Time-outs
-- and the limit of the reader on a line are left out.
pub mod Framing
pub mod Limits
use auto_squid.Base.{
  ℕ, zero, suc, ◌+◌, ◌||◌, Option, none, some, [], ◌∷◌, ◌++◌, ltb, if◌then◌else◌, ◌==◌, nat_eq,
  Text, text_eq, pair_eq, option_eq, length, take, drop, split_once, strip_bytes,
}
use auto_squid.Dict.{size, Dict}

-- `MAX_BODY`
abbrev pub max_body : ℕ
max_body = 10_485_760

-- `readline`: up to the line feed, which belongs to the line, or to the end
unfoldable pub read_line : Text → Text × Text
read_line [] = ([], [])
read_line (c ∷ s) =
    let (line, rest) = read_line s in if c == 10 then (10 ∷ [], s) else (c ∷ line, rest)

-- `readexactly`
unfoldable pub read_exactly : ℕ → Text → Option (Text × Text)
read_exactly n s = if ltb (length s) n then none else some (take n s, drop n s)

abbrev pub crlf : Text
crlf = 13 ∷ 10 ∷ []

abbrev pub before : Text → Option (Text × Text) → Text
before line none = line
before line (some (field, extension)) = field

-- `line.split(b';', 1)[0].strip()`
unfoldable pub size_field : Text → Text
size_field line = strip_bytes (before line (split_once b';' line))

-- the lines after the last chunk, up to an empty one
unfoldable pub skip_trailers : ℕ → Text → Text
unfolding read_line
skip_trailers zero s = s
skip_trailers (suc fuel) s =
    let (line, rest) = read_line s in
    let later = skip_trailers fuel rest in
    if length line == 0 || line == crlf || line == 10 ∷ [] then rest else later

-- the loop's next round, on the body so far and the bytes that follow
abbrev pub Next : Type 0
Next = Text → Text → Option (Text × Text)

abbrev pub after_end : Next → Text → Text → Option (Text × Text) → Option (Text × Text)
after_end next out chunk none = none
after_end next out chunk (some (end, rest)) = if end == crlf then next (out ++ chunk) rest else none

abbrev pub after_chunk : Next → Text → Option (Text × Text) → Option (Text × Text)
after_chunk next out none = none
after_chunk next out (some (chunk, rest)) = after_end next out chunk (read_exactly 2 rest)

abbrev pub after_size : Next → Text → Text → Option ℕ → Option (Text × Text)
after_size next out rest none = none
after_size next out rest (some size) =
    if size == 0
    then some (out, skip_trailers (length rest) rest)
    else if ltb max_body (length out + size)
    then none
    else after_chunk next out (read_exactly size rest)

abbrev pub after_line : (Text → Option ℕ) → Next → Text → Text × Text → Option (Text × Text)
after_line int16 next out ([], rest) = none
after_line int16 next out (c ∷ line, rest) =
    after_size next out rest (int16 (size_field (c ∷ line)))

-- the loop: the body, and the bytes that follow it
unfoldable pub decode : (Text → Option ℕ) → ℕ → Next
unfolding read_line read_exactly size_field skip_trailers
decode int16 zero out s = none
decode int16 (suc fuel) out s = after_line int16 (λ o t. decode int16 fuel o t) out (read_line s)

-- `_read_chunked_body`
unfoldable pub read_chunked_body : (Text → Option ℕ) → Text → Option (Text × Text)
unfolding decode
read_chunked_body int16 s = decode int16 (length s) [] s
