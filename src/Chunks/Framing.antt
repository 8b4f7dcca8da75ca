-- ===== src/Chunks/Framing.antt =====
-- What a chunked body decodes to, and where the reader stands afterwards.
use auto_squid.Chunks.{
  max_body, read_line, read_exactly, crlf, before, size_field, skip_trailers, Next, after_end,
  after_chunk, after_size, after_line, decode, read_chunked_body,
}
use auto_squid.Base.{
  ℕ, zero, suc, ◌+◌, ◌≤◌, ◌<◌, ◌≡◌, refl, sym, ap, ◌∙◌, Bool, true, ◌&&◌, ◌||◌, Option, none, some,
  List, [], ◌∷◌, ◌++◌, arith, ltb, leb, if_elim, length-append, ◌==◌, nat_eq, Text, text_eq,
  text_beq, pair_eq, option_eq, length, take, drop, all, split_once, strip_bytes, is_byte_blank,
  strip_left, strip_right, drop_blank, append-nil, append_assoc,
}

-- what a client sends for a list of chunks, with `hex` for the sizes, and what follows it
unfoldable pub encode : (ℕ → Text) → List Text → Text → Text
encode hex [] tail = hex 0 ++ 13 ∷ 10 ∷ 13 ∷ 10 ∷ tail
encode hex (chunk ∷ chunks) tail =
    hex (length chunk) ++ 13 ∷ 10 ∷ (chunk ++ 13 ∷ 10 ∷ encode hex chunks tail)

unfoldable pub concat : List Text → Text
concat [] = []
concat (chunk ∷ chunks) = chunk ++ concat chunks

-- a hexadecimal digit
abbrev pub is_hex : ℕ → Bool
is_hex c = leb b'0' c && leb c b'9' || leb b'a' c && leb c b'f' || leb b'A' c && leb c b'F'

read_line_lem :
    (t s : Text) → all is_hex t ≡ true → read_line (t ++ 13 ∷ 10 ∷ s) ≡ (t ++ 13 ∷ 10 ∷ [], s)
unfolding read_line
read_line_lem [] s h = refl
read_line_lem (c ∷ t) s h = ground (arith, h, read_line_lem t s)

no_semicolon : (t : Text) → all is_hex t ≡ true → split_once b';' (t ++ crlf) ≡ none
unfolding split_once
no_semicolon [] h = refl
no_semicolon (c ∷ t) h = ground (arith, h, no_semicolon t)

strip_right_lem : (t : Text) → all is_hex t ≡ true → strip_right is_byte_blank (t ++ crlf) ≡ t
unfolding strip_right
strip_right_lem [] h = refl
strip_right_lem (c ∷ []) h = ground (arith, h)
strip_right_lem (c ∷ d ∷ t) h =
    ap (drop_blank is_byte_blank c) (strip_right_lem (d ∷ t) (ground (arith, h)))

strip_left_lem :
    (t : Text)
    → all is_hex t ≡ true
    → strip_right is_byte_blank (strip_left is_byte_blank (t ++ crlf)) ≡ t
unfolding strip_left strip_right
strip_left_lem [] h = refl
strip_left_lem (c ∷ t) h = ground (arith, h, strip_right_lem (c ∷ t))

size_field_lem : (t : Text) → all is_hex t ≡ true → size_field (t ++ crlf) ≡ t
unfolding size_field strip_bytes
size_field_lem t h =
    ap (λ o. strip_right is_byte_blank (strip_left is_byte_blank (before (t ++ crlf) o)))
      (no_semicolon t h)
    ∙ strip_left_lem t h

take_append : (t s : Text) → take (length t) (t ++ s) ≡ t
take_append [] s = refl
take_append (c ∷ t) s = ap (λ u. c ∷ u) (take_append t s)

drop_append : (t s : Text) → drop (length t) (t ++ s) ≡ s
drop_append [] s = refl
drop_append (c ∷ t) s = drop_append t s

read_exactly_lem : (t s : Text) → read_exactly (length t) (t ++ s) ≡ some (t, s)
unfolding read_exactly
read_exactly_lem t s = ground (arith, length-append t s, take_append t s, drop_append t s)

whole_line :
    (int16 : Text → Option ℕ) (next : Next) (out digits s : Text)
    → after_line int16 next out (digits ++ crlf, s)
      ≡ after_size next out s (int16 (size_field (digits ++ crlf)))
whole_line int16 next out [] s = refl
whole_line int16 next out (c ∷ digits) s = refl

first_line :
    (int16 : Text → Option ℕ) (next : Next) (out digits s : Text) (n : ℕ)
    → all is_hex digits ≡ true
    → int16 digits ≡ some n
    → after_line int16 next out (read_line (digits ++ 13 ∷ 10 ∷ s)) ≡ after_size next out s (some n)
first_line int16 next out digits s n h parsed =
    ap (after_line int16 next out) (read_line_lem digits s h)
    ∙ (whole_line int16 next out digits s
        ∙ ap (after_size next out s) (ap int16 (size_field_lem digits h) ∙ parsed))

ended :
    (next : Next) (out chunk s : Text)
    → after_end next out chunk (read_exactly 2 (13 ∷ 10 ∷ s)) ≡ next (out ++ chunk) s
unfolding text_beq
ended next out chunk s = ap (after_end next out chunk) (read_exactly_lem crlf s)

whole_size :
    (next : Next) (out chunk s : Text)
    → 0 < length chunk
    → length out + length chunk ≤ max_body
    → after_size next out (chunk ++ 13 ∷ 10 ∷ s) (some (length chunk)) ≡ next (out ++ chunk) s
whole_size next out chunk s some_bytes fits =
    if_elim (λ r. r ≡ next (out ++ chunk) s) (length chunk == 0)
      (λ empty. absurd (ground (arith, empty, some_bytes)))
      (λ _.
        if_elim (λ r. r ≡ next (out ++ chunk) s) (ltb max_body (length out + length chunk))
          (λ over. absurd (ground (arith, over, fits)))
          (λ _.
            ap (after_chunk next out) (read_exactly_lem chunk (13 ∷ 10 ∷ s))
            ∙ ended next out chunk s))

last_size :
    (next : Next) (out tail : Text)
    → after_size next out (13 ∷ 10 ∷ tail) (some 0) ≡ some (out, tail)
unfolding skip_trailers read_line text_beq
last_size next out tail = refl

-- no chunk is empty
abbrev pub AllFilled : List Text → Type 0
AllFilled [] = Unit
AllFilled (chunk ∷ chunks) = (0 < length chunk) × AllFilled chunks

decode-encode :
    (int16 : Text → Option ℕ) (hex : ℕ → Text) (fuel : ℕ) (out : Text) (chunks : List Text)
    (tail : Text)
    → ((n : ℕ) → int16 (hex n) ≡ some n)
    → ((n : ℕ) → all is_hex (hex n) ≡ true)
    → AllFilled chunks
    → length out + length (concat chunks) ≤ max_body
    → length chunks < fuel
    → decode int16 fuel out (encode hex chunks tail) ≡ some (out ++ concat chunks, tail)
unfolding decode encode concat
decode-encode int16 hex zero out chunks tail parse digits full fits enough =
    absurd (omega (arith, enough))
decode-encode int16 hex (suc fuel) out [] tail parse digits full fits enough =
    let next : Next = λ o t. decode int16 fuel o t in
    first_line int16 next out (hex 0) (13 ∷ 10 ∷ tail) 0 (digits 0) (parse 0)
    ∙ (last_size next out tail ∙ ap (λ o. some (o, tail)) (sym (append-nil out)))
decode-encode int16 hex (suc fuel) out (chunk ∷ chunks) tail parse digits full fits enough =
    let next : Next = λ o t. decode int16 fuel o t in
    let n = length chunk in
    let size = length-append chunk (concat chunks) in
    first_line int16 next out (hex n) (chunk ++ 13 ∷ 10 ∷ encode hex chunks tail) n (digits n)
      (parse n)
    ∙ (whole_size next out chunk (encode hex chunks tail) full.0 (omega (arith, fits, size))
        ∙ (decode-encode int16 hex fuel (out ++ chunk) chunks tail parse digits full.1
              (omega (arith, fits, size, length-append out chunk)) (omega (arith, enough))
            ∙ ap (λ o. some (o, tail)) (append_assoc out chunk (concat chunks))))

length-encode :
    (hex : ℕ → Text) (chunks : List Text) (tail : Text)
    → length chunks < length (encode hex chunks tail)
unfolding encode
length-encode hex [] tail = omega (arith, length-append (hex 0) (13 ∷ 10 ∷ 13 ∷ 10 ∷ tail))
length-encode hex (chunk ∷ chunks) tail = omega (
  arith,
  length-append (hex (length chunk)) (13 ∷ 10 ∷ (chunk ++ 13 ∷ 10 ∷ encode hex chunks tail)),
  length-append chunk (13 ∷ 10 ∷ encode hex chunks tail),
  length-encode hex chunks tail,
)

-- A body that a client sends in non-empty chunks decodes to the chunks in a row, and the reader then
-- stands at the first byte after the body, where the next request begins. The sizes are written in
-- hexadecimal digits that the parser of numbers reads back, and the body is within the limit.
pub read_chunked_body-encode :
    (int16 : Text → Option ℕ) (hex : ℕ → Text) (chunks : List Text) (tail : Text)
    → ((n : ℕ) → int16 (hex n) ≡ some n)
    → ((n : ℕ) → all is_hex (hex n) ≡ true)
    → AllFilled chunks
    → length (concat chunks) ≤ max_body
    → read_chunked_body int16 (encode hex chunks tail) ≡ some (concat chunks, tail)
unfolding read_chunked_body
read_chunked_body-encode int16 hex chunks tail parse digits full fits =
    decode-encode int16 hex (length (encode hex chunks tail)) [] chunks tail parse digits full
      (omega (arith, fits)) (length-encode hex chunks tail)
