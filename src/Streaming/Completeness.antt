-- ===== src/Streaming/Completeness.antt =====
-- What is kept for the cache.
use auto_squid.Base.{
  ℕ, ◌≤◌, ◌≡◌, ◌⊎◌, false, Option, none, some, List, ◌∷◌, ◌++◌, nat_eq, Text, text_eq, length, text,
  ◌+◌, refl, sym, ap, ◌∙◌, inl, inr, Bool, true, not, ◌&&◌, ◌||◌, [], arith, leb, Bool-cases,
  if_elim, length-append, subst, ◌==◌, pair_eq, option_eq, append-nil, append_assoc,
}
use auto_squid.Requests.{ℤ, pos, negsuc}
use auto_squid.Chunks.Framing.{concat}
use auto_squid.Streaming.{
  Writer, Upstream, Client, promised_len, use_chunked, Pump, buffered_with, pump_chunk, pump_all,
  keeps_promise, ended, concluded, begun, stream_upstream_response, is_unpromised,
}
use auto_squid.Dict.Laws.{kept}

-- the bytes agree with the length that was promised, if there is one and the method is not HEAD
abbrev pub Fulfils : Option ℤ → Text → Text → Type 0
Fulfils none method b = Unit
Fulfils (some n) method b = (method ≡ text "HEAD") ⊎ (n ≡ pos (length b))

-- the whole body of an answer that came to its end
abbrev pub IsWhole : Writer → ℕ → Text → Upstream → Option Text → Type 0
IsWhole w limit method u none = Unit
IsWhole w limit method u (some b) =
    (b ≡ concat u.chunks)
    × (u.is_broken ≡ false)
    × (length b ≤ limit)
    × Fulfils (promised_len w u) method b

-- the buffer, unless it was given up, is what it held before and the chunks
abbrev Holds : ℕ → Option Text → List Text → Option Text → Type 0
Holds limit before chunks none = Unit
Holds limit none chunks (some b) = ⊥
Holds limit (some a) chunks (some b) = (b ≡ a ++ concat chunks) × (length b ≤ limit)

-- no buffer that is too long
abbrev Short : ℕ → Option Text → Type 0
Short limit none = Unit
Short limit (some b) = length b ≤ limit

Holds-trans :
    (limit : ℕ) (chunk : Text) (chunks : List Text) (before after : Option Text)
    → Holds limit (buffered_with limit chunk before) chunks after
    → Holds limit before (chunk ∷ chunks) after
unfolding concat
Holds-trans limit chunk chunks before none h = tt
Holds-trans limit chunk chunks none (some b) h = h
Holds-trans limit chunk chunks (some a) (some b) h =
    if_elim (λ o. Holds limit o chunks (some b) → Holds limit (some a) (chunk ∷ chunks) (some b))
      (leb (length a + length chunk) limit)
      (λ _ kept. (kept.0 ∙ append_assoc a chunk (concat chunks), kept.1)) (λ _ kept. absurd kept) h

Holds-refl : (limit : ℕ) (o : Option Text) → Short limit o → Holds limit o [] o
unfolding concat
Holds-refl limit none h = tt
Holds-refl limit (some a) h = (sym (append-nil a), h)

buffered_with-Short :
    (limit : ℕ) (chunk : Text) (o : Option Text) → Short limit (buffered_with limit chunk o)
buffered_with-Short limit chunk none = tt
buffered_with-Short limit chunk (some a) =
    if_elim (Short limit) (leb (length a + length chunk) limit)
      (λ fits. ground (arith, fits, length-append a chunk)) (λ _. tt)

module _ (w : Writer) (client : Client) (limit : ℕ) where
  pump_all-Holds :
      (chunked : Bool) (i : ℕ) (chunks : List Text) (p : Pump)
      → Short limit p.buffer
      → Holds limit p.buffer chunks (pump_all w client chunked limit i chunks p).buffer
  unfolding pump_all
  pump_all-Holds chunked i [] p h = Holds-refl limit p.buffer h
  pump_all-Holds chunked i (chunk ∷ chunks) p h =
      let q = pump_chunk w client chunked limit i chunk p in
      Holds-trans limit chunk chunks p.buffer
        (pump_all w client chunked limit (i + 1) chunks q).buffer
        (pump_all-Holds chunked (i + 1) chunks q (buffered_with-Short limit chunk p.buffer))

  pump_all-streamed :
      (i : ℕ) (chunks : List Text) (p : Pump)
      → (pump_all w client false limit i chunks p).streamed ≡ p.streamed + length (concat chunks)
  unfolding pump_all concat
  pump_all-streamed i [] p = omega arith
  pump_all-streamed i (chunk ∷ chunks) p = omega (
    arith,
    pump_all-streamed (i + 1) chunks (pump_chunk w client false limit i chunk p),
    length-append chunk (concat chunks),
  )

  -- a promise is given only where the bytes are counted
  streamed_of :
      (chunked : Bool) (o : Option ℤ) (chunks : List Text) (p : Pump)
      → (is_unpromised o ≡ false → chunked ≡ false)
      → is_unpromised o ≡ false
      → p.streamed ≡ 0
      → (pump_all w client chunked limit 0 chunks p).streamed ≡ length (concat chunks)
  streamed_of chunked o chunks p framing promised zero_first =
      subst (λ b. (pump_all w client b limit 0 chunks p).streamed ≡ length (concat chunks))
        (sym (framing promised)) (omega (arith, pump_all-streamed 0 chunks p, zero_first))

fulfils_lem :
    (o : Option ℤ) (method b : Text) (streamed : ℕ)
    → keeps_promise o method streamed ≡ true
    → (is_unpromised o ≡ false → streamed ≡ length b)
    → Fulfils o method b
fulfils_lem none method b streamed keeps counted = tt
fulfils_lem (some (negsuc n)) method b streamed keeps counted =
    inl ((text_eq.beq_iff method (text "HEAD")).0 keeps)
fulfils_lem (some (pos n)) method b streamed keeps counted =
    elim (Bool-cases (method == text "HEAD")) [
      | inl head ↦ inl ((text_eq.beq_iff method (text "HEAD")).0 head)
      | inr other ↦ inr (
          ap pos (
            sym
              ((nat_eq.beq_iff streamed n).0 (subst (λ c. (c || streamed == n) ≡ true) other keeps))
            ∙ counted refl))
    ]

-- what is returned for the cache: the buffer of an answer that did not fail and kept its promise
concluded_lem :
    (promised : Option ℤ) (method : Text) (p : Pump) (end : Text × Bool) (P : Option Text → Type 0)
    → P none
    → (end.1 ≡ false → keeps_promise promised method p.streamed ≡ true → P p.buffer)
    → P (concluded promised method p end).buffered
concluded_lem promised method p (sent, failed) P nothing kept =
    if_elim P (not failed && keeps_promise promised method p.streamed)
      (λ good. kept (ground (arith, good)) (ground (arith, good))) (λ _. nothing)

unbroken :
    (w : Writer) (client : Client) (chunked is_broken : Bool) (p : Pump)
    → (ended w client chunked is_broken p).1 ≡ false
    → is_broken ≡ false
unbroken w client chunked true p h = absurd (ground (arith, h))
unbroken w client chunked false p h = refl

whole_lem :
    (w : Writer) (limit : ℕ) (method : Text) (u : Upstream) (o : Option Text)
    → Holds limit (some []) u.chunks o
    → u.is_broken ≡ false
    → Fulfils (promised_len w u) method (concat u.chunks)
    → IsWhole w limit method u o
whole_lem w limit method u none h unbroken fulfils = tt
whole_lem w limit method u (some b) (same, short) unbroken fulfils =
    (same, unbroken, short, subst (Fulfils (promised_len w u) method) (sym same) fulfils)

promised-unchunked :
    (w : Writer) (client : Client) (u : Upstream)
    → is_unpromised (promised_len w u) ≡ false
    → use_chunked w client u ≡ false
unfolding use_chunked
promised-unchunked w client u h = ground (arith, h)

-- Whatever the upstream sends and however it and the client break off, what is kept for the cache
-- is the whole body: all chunks in a row of an answer that came to its end, within the limit, and as
-- long as the length that the upstream promised, if it promised one and the method is not HEAD.
pub stream_upstream_response-IsWhole :
    (w : Writer) (client : Client) (limit : ℕ) (method : Text) (u : Upstream)
    → IsWhole w limit method u (stream_upstream_response w client limit method u).buffered
unfolding stream_upstream_response
stream_upstream_response-IsWhole w client limit method u =
    let chunked = use_chunked w client u in
    let first = begun w client u in
    let p = pump_all w client chunked limit 0 u.chunks first in
    concluded_lem (promised_len w u) method p (ended w client chunked u.is_broken p)
      (IsWhole w limit method u) tt
      (λ fine keeps.
        whole_lem w limit method u p.buffer
          (pump_all-Holds w client limit chunked 0 u.chunks first (omega arith))
          (unbroken w client chunked u.is_broken p fine)
          (fulfils_lem (promised_len w u) method (concat u.chunks) p.streamed keeps (λ promised.
            streamed_of w client limit chunked (promised_len w u) u.chunks first
              (promised-unchunked w client u) promised refl)))
