-- ===== src/Chunks/Limits.antt =====
-- How long a chunked body can get.
use auto_squid.Chunks.{
  max_body, read_line, read_exactly, crlf, size_field, Next, after_end, after_chunk, after_size,
  after_line, decode, read_chunked_body,
}
use auto_squid.Base.{
  ℕ, zero, suc, ◌+◌, ◌≤◌, ◌≡◌, refl, Option, none, some, [], ◌∷◌, ◌++◌, arith, ltb, if_elim,
  length-append, length-take-le, subst, ◌==◌, nat_eq, Text, text_eq, pair_eq, option_eq, length,
}
use auto_squid.Dict.{size}

-- the body that is returned, if any, stays within the limit
abbrev Limited : Option (Text × Text) → Type 0
Limited none = Unit
Limited (some (body, rest)) = length body ≤ max_body

-- the next round stays within the limit from a body within it
LimitedNext : Next → Type 0
LimitedNext next = (out s : Text) → length out ≤ max_body → Limited (next out s)

after_end-Limited :
    (next : Next) (out chunk : Text) (o : Option (Text × Text))
    → LimitedNext next
    → length out + length chunk ≤ max_body
    → Limited (after_end next out chunk o)
unfolding LimitedNext
after_end-Limited next out chunk none h le = tt
after_end-Limited next out chunk (some (end, rest)) h le =
    if_elim Limited (end == crlf)
      (λ _. h (out ++ chunk) rest (omega (arith, le, length-append out chunk))) (λ _. tt)

after_chunk-Limited :
    (next : Next) (out : Text) (o : Option (Text × Text)) (size : ℕ) (s : Text)
    → LimitedNext next
    → length out + size ≤ max_body
    → read_exactly size s ≡ o
    → Limited (after_chunk next out o)
unfolding read_exactly
after_chunk-Limited next out none size s h le at = tt
after_chunk-Limited next out (some (chunk, rest)) size s h le at =
    after_end-Limited next out chunk (read_exactly 2 rest) h
      (ground (arith, at, le, length-take-le size s))

after_size-Limited :
    (next : Next) (out rest : Text) (o : Option ℕ)
    → LimitedNext next
    → length out ≤ max_body
    → Limited (after_size next out rest o)
after_size-Limited next out rest none h le = tt
after_size-Limited next out rest (some size) h le =
    if_elim Limited (size == 0) (λ _. le)
      (λ _.
        if_elim Limited (ltb max_body (length out + size)) (λ _. tt)
          (λ fits.
            after_chunk-Limited next out (read_exactly size rest) size rest h (ground (arith, fits))
              refl))

after_line-Limited :
    (int16 : Text → Option ℕ) (next : Next) (out : Text) (r : Text × Text)
    → LimitedNext next
    → length out ≤ max_body
    → Limited (after_line int16 next out r)
after_line-Limited int16 next out ([], rest) h le = tt
after_line-Limited int16 next out (c ∷ line, rest) h le =
    after_size-Limited next out rest (int16 (size_field (c ∷ line))) h le

decode-Limited : (int16 : Text → Option ℕ) (fuel : ℕ) → LimitedNext (decode int16 fuel)
unfolding decode LimitedNext
decode-Limited int16 zero out s le = tt
decode-Limited int16 (suc fuel) out s le =
    after_line-Limited int16 (λ o t. decode int16 fuel o t) out (read_line s)
      (decode-Limited int16 fuel) le

-- Whatever the client sends, a body that is decoded has at most `max_body` bytes.
pub read_chunked_body_bounded :
    (int16 : Text → Option ℕ) (s body rest : Text)
    → read_chunked_body int16 s ≡ some (body, rest)
    → length body ≤ max_body
unfolding read_chunked_body LimitedNext
read_chunked_body_bounded int16 s body rest h =
    subst Limited h (decode-Limited int16 (length s) [] s (omega arith))
