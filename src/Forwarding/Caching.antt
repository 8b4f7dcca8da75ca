-- ===== src/Forwarding/Caching.antt =====
-- What a request that is forwarded leaves in the cache.
use auto_squid.Base.{
  ℕ, ◌≡◌, refl, ◌∙◌, ◌⊎◌, inl, inr, true, ◌&&◌, Option, none, some, arith, leb, if_elim, subst,
  nat_eq, Text, text_eq,
}
use auto_squid.Attempts.{World, Settings, Result, done, raised, try_http}
use auto_squid.Failures.{is_cancelled}
use auto_squid.HttpCache.{HttpCache, cacheable_status, http_cache_set}
use auto_squid.Streaming.{Writer, Client, stream_upstream_response}
use auto_squid.Streaming.Completeness.{IsWhole, stream_upstream_response-IsWhole}
use auto_squid.Forwarding.{
  Front, Request, Source, sticky, cached, won, Course, Outcome, observe_single_send,
  observe_single_send_failure, observe_win, count_hit, kept, hand_on, after_attempt, forward_single,
}

module _ (hostname : Text → Option Text) (w : Writer) (client : Client) (limit : ℕ) where
  -- the cache is that of before, or holds the whole body of this answer besides
  abbrev pub KeepsWhole : Request → Course → HttpCache → HttpCache → Type 0
  KeepsWhole r k c d =
      (d ≡ c)
      ⊎ ((b : Text) × IsWhole w limit r.method k.upstream (some b)
          × (cacheable_status k.upstream.status_code ≡ true)
          × (d
              ≡ http_cache_set hostname r.method r.url k.upstream.status_code
                  k.upstream.reason_phrase k.upstream.headers b r.headers k.now c))

  kept-KeepsWhole :
      (r : Request) (k : Course) (o : Option Text) (c : HttpCache)
      → IsWhole w limit r.method k.upstream o
      → KeepsWhole r k c (kept hostname w client limit r k o c)
  kept-KeepsWhole r k none c whole = inl refl
  kept-KeepsWhole r k (some b) c whole =
      if_elim (KeepsWhole r k c) (cacheable_status k.upstream.status_code)
        (λ cacheable. inr (b, whole, cacheable, refl)) (λ _. inl refl)

  hand_on-KeepsWhole :
      (r : Request) (pid : Text) (k : Course) (f : Front)
      → KeepsWhole r k f.cache (hand_on hostname w client limit r pid k f).1.cache
  unfolding hand_on
  hand_on-KeepsWhole r pid k f =
      if_elim (λ (o : Outcome × Front). KeepsWhole r k f.cache o.1.cache)
        (r.retry_on_5xx && leb 500 k.upstream.status_code) (λ _. inl refl)
        (λ _.
          kept-KeepsWhole r k (stream_upstream_response w client limit r.method k.upstream).buffered
            f.cache (stream_upstream_response-IsWhole w client limit r.method k.upstream))

  observe_win-cache : (pick : ℕ) (f : Front) → (observe_win pick f).cache ≡ f.cache
  unfolding observe_win
  observe_win-cache pick f = ground arith

  observe_single_send-cache :
      (elapsed : ℕ) (f : Front) → (observe_single_send elapsed f).cache ≡ f.cache
  unfolding observe_single_send
  observe_single_send-cache elapsed f = ground arith

  observe_single_send_failure-cache :
      (elapsed : ℕ) (f : Front) → (observe_single_send_failure elapsed f).cache ≡ f.cache
  unfolding observe_single_send_failure
  observe_single_send_failure-cache elapsed f = ground arith

  count_hit-cache : (source : Source) (f : Front) → (count_hit source f).cache ≡ f.cache
  count_hit-cache sticky f = refl
  count_hit-cache cached f = refl
  count_hit-cache won f = refl

  after_attempt-KeepsWhole :
      (r : Request) (source : Source) (pid : Text) (k : Course) (f : Front) (a : Result × World)
      → KeepsWhole r k f.cache (after_attempt hostname w client limit r source pid k f a).1.cache
  after_attempt-KeepsWhole r source pid k f (raised e, v) =
      let g = record f { world = v } in
      inl (
        if_elim (λ (h : Front). h.cache ≡ f.cache) (is_cancelled e) (λ _. refl)
          (λ _. observe_single_send_failure-cache k.elapsed g))
  after_attempt-KeepsWhole r source pid k f (done, v) =
      let g = observe_single_send k.elapsed (record f { world = v }) in
      let h = count_hit source (observe_win k.pick g) in
      subst (λ c. KeepsWhole r k c (hand_on hostname w client limit r pid k h).1.cache)
        (count_hit-cache source (observe_win k.pick g)
          ∙ (observe_win-cache k.pick g
              ∙ observe_single_send-cache k.elapsed (record f { world = v })))
        (hand_on-KeepsWhole r pid k h)

  -- However an attempt, the upstream and the client behave, forwarding a request leaves the cache as
  -- it was or stores in it one answer with a cacheable status and its whole body: never one that was
  -- cut off or that broke the promised length.
  pub forward_single-KeepsWhole :
      (c : Settings) (r : Request) (source : Source) (pid : Text) (k : Course) (f : Front)
      → KeepsWhole r k f.cache (forward_single hostname w client limit c r source pid k f).1.cache
  unfolding forward_single
  forward_single-KeepsWhole c r won pid k f = hand_on-KeepsWhole r pid k f
  forward_single-KeepsWhole c r sticky pid k f =
      after_attempt-KeepsWhole r sticky pid k f
        (try_http c pid r.domain k.sent k.ttfb k.now f.world)
  forward_single-KeepsWhole c r cached pid k f =
      after_attempt-KeepsWhole r cached pid k f
        (try_http c pid r.domain k.sent k.ttfb k.now f.world)
