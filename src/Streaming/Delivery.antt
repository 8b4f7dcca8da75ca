-- ===== src/Streaming/Delivery.antt =====
-- What a client that stays reads back.
use auto_squid.Base.{
  ℕ, ◌+◌, ◌≡◌, refl, sym, ap, ◌∙◌, Bool, true, false, List, [], ◌∷◌, ◌++◌, arith, if◌then◌else◌,
  nat_eq, Text, text_eq, append-nil, append_assoc, ◌≤◌, not, Option, some, length, all,
}
use auto_squid.Chunks.{max_body, read_chunked_body}
use auto_squid.Chunks.Framing.{encode, concat, is_hex, AllFilled, read_chunked_body-encode}
use auto_squid.Streaming.{
  Writer, Upstream, Client, use_chunked, response_head, Pump, framed, pump_chunk, pump_all, ended,
  begun, stream_upstream_response,
}

-- the chunks as they are written
unfoldable pub wire : Writer → Bool → List Text → Text
wire w chunked [] = []
wire w chunked (chunk ∷ chunks) = framed w chunked chunk ++ wire w chunked chunks

-- the client takes everything
abbrev pub Stays : Client → Type 0
Stays client =
    (client.takes_head ≡ true)
    × ((i : ℕ) → client.takes_chunk i ≡ true)
    × (client.takes_rest ≡ true)

module _ (w : Writer) (client : Client) (limit : ℕ) (chunked : Bool) where
  pump_all-written :
      (i : ℕ) (chunks : List Text) (p : Pump)
      → ((j : ℕ) → client.takes_chunk j ≡ true)
      → p.is_gone ≡ false
      → ((pump_all w client chunked limit i chunks p).written ≡ p.written ++ wire w chunked chunks)
        × ((pump_all w client chunked limit i chunks p).is_gone ≡ false)
  unfolding pump_all wire
  pump_all-written i [] p takes here = (sym (append-nil p.written), here)
  pump_all-written i (chunk ∷ chunks) p takes here =
      let q = pump_chunk w client chunked limit i chunk p in
      let there : q.is_gone ≡ false = ground (arith, here, takes i) in
      let rest = pump_all-written (i + 1) chunks q takes there in
      (
        rest.0
            ∙ (ap (λ (t : Text). t ++ wire w chunked chunks)
                  (ap (λ b. if b then p.written else p.written ++ framed w chunked chunk) here)
                ∙ append_assoc p.written (framed w chunked chunk) (wire w chunked chunks)),
        rest.1,
      )

  ended-written :
      (p : Pump)
      → client.takes_rest ≡ true
      → p.is_gone ≡ false
      → (ended w client chunked false p).0
        ≡ (if chunked then p.written ++ b'0' ∷ 13 ∷ 10 ∷ 13 ∷ 10 ∷ [] else p.written)
  ended-written p takes here = ground (arith, takes, here)

-- the frames with the last one are the encoding of the chunks
wire-encode :
    (w : Writer) (chunks : List Text)
    → w.hex 0 ≡ b'0' ∷ []
    → wire w true chunks ++ b'0' ∷ 13 ∷ 10 ∷ 13 ∷ 10 ∷ [] ≡ encode w.hex chunks []
unfolding wire encode
wire-encode w [] zero_digit = ap (λ (t : Text). t ++ 13 ∷ 10 ∷ 13 ∷ 10 ∷ []) (sym zero_digit)
wire-encode w (chunk ∷ chunks) zero_digit = simp (append_assoc, wire-encode w chunks zero_digit)

wire-concat : (w : Writer) (chunks : List Text) → wire w false chunks ≡ concat chunks
unfolding wire concat
wire-concat w [] = refl
wire-concat w (chunk ∷ chunks) = ap (λ t. chunk ++ t) (wire-concat w chunks)

-- what a reader makes of the bytes after the head
abbrev pub Reads : (Text → Option ℕ) → Bool → Text → List Text → Type 0
Reads int16 true t chunks = read_chunked_body int16 t ≡ some (concat chunks, [])
Reads int16 false t chunks = t ≡ concat chunks

-- the bytes after the head
abbrev pub tail_of : Writer → Bool → List Text → Text
tail_of w true chunks = wire w true chunks ++ b'0' ∷ 13 ∷ 10 ∷ 13 ∷ 10 ∷ []
tail_of w false chunks = wire w false chunks

closing :
    (w : Writer) (chunked : Bool) (head : Text) (chunks : List Text)
    → (if chunked
        then (head ++ wire w chunked chunks) ++ b'0' ∷ 13 ∷ 10 ∷ 13 ∷ 10 ∷ []
        else head ++ wire w chunked chunks)
      ≡ head ++ tail_of w chunked chunks
closing w true head chunks = append_assoc head (wire w true chunks) (b'0' ∷ 13 ∷ 10 ∷ 13 ∷ 10 ∷ [])
closing w false head chunks = refl

tail_of-Reads :
    (w : Writer) (int16 : Text → Option ℕ) (chunked : Bool) (chunks : List Text)
    → w.hex 0 ≡ b'0' ∷ []
    → ((n : ℕ) → int16 (w.hex n) ≡ some n)
    → ((n : ℕ) → all is_hex (w.hex n) ≡ true)
    → AllFilled chunks
    → length (concat chunks) ≤ max_body
    → Reads int16 chunked (tail_of w chunked chunks) chunks
tail_of-Reads w int16 true chunks zero_digit parse digits full fits =
    ap (read_chunked_body int16) (wire-encode w chunks zero_digit)
    ∙ read_chunked_body-encode int16 w.hex chunks [] parse digits full fits
tail_of-Reads w int16 false chunks zero_digit parse digits full fits = wire-concat w chunks

-- A client that stays reads back what the upstream sent to its end: after the head stand, if the
-- framing is chunked, frames that a reader of chunked bodies decodes to all chunks in a row with
-- nothing behind them, and else the chunks in a row themselves. The sizes are written in hexadecimal
-- digits that the reader parses, 0 as `0`; no chunk is empty, and the body is within the reader's
-- limit.
pub stream_upstream_response-Reads :
    (w : Writer) (int16 : Text → Option ℕ) (client : Client) (limit : ℕ) (method : Text)
    (u : Upstream)
    → Stays client
    → u.is_broken ≡ false
    → w.hex 0 ≡ b'0' ∷ []
    → ((n : ℕ) → int16 (w.hex n) ≡ some n)
    → ((n : ℕ) → all is_hex (w.hex n) ≡ true)
    → AllFilled u.chunks
    → length (concat u.chunks) ≤ max_body
    → (tail : Text) × ((stream_upstream_response w client limit method u).sent
        ≡ response_head w client u ++ tail)
      × Reads int16 (use_chunked w client u) tail u.chunks
unfolding stream_upstream_response
stream_upstream_response-Reads w int16 client limit method u (head_ok, chunks_ok, rest_ok) whole
      zero_digit parse digits full fits =
    let chunked = use_chunked w client u in
    let head = response_head w client u in
    let p = pump_all w client chunked limit 0 u.chunks (begun w client u) in
    let pumped =
      pump_all-written w client limit chunked 0 u.chunks (begun w client u) chunks_ok
        (ap not head_ok) in
    (
      tail_of w chunked u.chunks,
      ap (λ b. (ended w client chunked b p).0) whole
          ∙ (ended-written w client limit chunked p rest_ok pumped.1
              ∙ (ap (λ (t : Text). if chunked then t ++ b'0' ∷ 13 ∷ 10 ∷ 13 ∷ 10 ∷ [] else t)
                    pumped.0
                  ∙ closing w chunked head u.chunks)),
      tail_of-Reads w int16 chunked u.chunks zero_digit parse digits full fits,
    )
