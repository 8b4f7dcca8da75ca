-- ===== src/Pools/Freshness.antt =====
-- No connection that is known to be dead is handed out, and what keeps the pools from pausing.
use auto_squid.Pools.{
  Conn, Sockets, Config, Pool, generic, targeted, Pools, stack, pool_of, bucket_key,
}
use auto_squid.Pools.Peeking.{
  is_stale, pop_usable, peek_stack, pool_peek, steal_from, steal_from_target_pool, or_steal, donors,
  keys_of, conn_pool_peek, hit_or_steal, count_miss, target_pool_peek, count_target,
}
use auto_squid.Pools.Activity.{recent, window, record_request_activity}
use auto_squid.Base.{
  ℕ, ◌+◌, ◌<◌, ◌≡◌, refl, ap, ◌∙◌, false, Option, none, some, List, [], ◌∷◌, arith, if_elim, nat_eq,
  Text, text_eq,
}
use auto_squid.Dict.{lookup}

-- a connection that was found is open, has not been closed by the peer and holds no stray bytes
abbrev pub Usable : Sockets → Option Conn → Type 0
Usable net none = Unit
Usable net (some c) =
    (net.is_closing c.id ≡ false) × (net.at_eof c.id ≡ false) × (net.pending_bytes c.id ≡ 0)

pop_usable-Usable : (net : Sockets) (st : List Conn) → Usable net (pop_usable net st).1
unfolding pop_usable
pop_usable-Usable net [] = tt
pop_usable-Usable net (c ∷ st) =
    if_elim (λ (r : ℕ × Option Conn × List Conn). Usable net r.1) (is_stale net c)
      (λ _. pop_usable-Usable net st)
      (λ ok. (ground (arith, ok), ground (arith, ok), ground (arith, ok)))

peek_stack-Usable :
    (net : Sockets) (p : Pool) (key : Text) (st : List Conn) (s : Pools)
    → Usable net (peek_stack net p key st s).0
unfolding peek_stack
peek_stack-Usable net p key [] s = tt
peek_stack-Usable net p key (c ∷ st) s = pop_usable-Usable net (c ∷ st)

pool_peek-Usable :
    (net : Sockets) (p : Pool) (key : Text) (s : Pools) → Usable net (pool_peek net p key s).0
unfolding pool_peek
pool_peek-Usable net p key s = peek_stack-Usable net p key (stack (lookup key (pool_of p s))) s

or_steal-Usable :
    (net : Sockets) (got later : Option Conn × Pools)
    → Usable net got.0
    → Usable net later.0
    → Usable net (or_steal got later).0
or_steal-Usable net (none, s) later a b = b
or_steal-Usable net (some c, s) later a b = a

steal_from-Usable :
    (net : Sockets) (ds : List (ℕ × Text)) (s : Pools) → Usable net (steal_from net ds s).0
unfolding steal_from
steal_from-Usable net [] s = tt
steal_from-Usable net (d ∷ ds) s =
    let got = pool_peek net targeted d.1 s in
    or_steal-Usable net got (steal_from net ds got.1) (pool_peek-Usable net targeted d.1 s)
      (steal_from-Usable net ds got.1)

count_miss-Usable :
    (net : Sockets) (r : Option Conn × Pools) → Usable net r.0 → Usable net (count_miss r).0
count_miss-Usable net (none, s) a = a
count_miss-Usable net (some c, s) a = a

hit_or_steal-Usable :
    (net : Sockets) (pk : Text) (r : Option Conn × Pools)
    → Usable net r.0
    → Usable net (hit_or_steal net pk r).0
unfolding steal_from_target_pool
hit_or_steal-Usable net pk (some c, s) a = a
hit_or_steal-Usable net pk (none, s) a =
    let ds = donors (keys_of (lookup pk s.target_keys_by_proxy)) s in
    count_miss-Usable net (steal_from net ds s) (steal_from-Usable net ds s)

count_target-Usable :
    (net : Sockets) (cfg : Config) (key : Text) (r : Option Conn × Pools)
    → Usable net r.0
    → Usable net (count_target cfg key r).0
count_target-Usable net cfg key (none, s) a = a
count_target-Usable net cfg key (some c, s) a =
    if_elim (λ (r : Option Conn × Pools). Usable net r.0) c.cluster_prewarmed (λ _. a) (λ _. a)

-- A connection that either pool hands out, be it stolen from another target's stack, is one
-- that neither this side is closing nor the peer has ended, and that holds no bytes that nobody asked
-- for.
pub peek-Usable :
    (net : Sockets) (cfg : Config) (pk target : Text) (s : Pools)
    → Usable net (conn_pool_peek net pk s).0 × Usable net (target_pool_peek net cfg pk target s).0
unfolding conn_pool_peek target_pool_peek
peek-Usable net cfg pk target s = (
  hit_or_steal-Usable net pk (pool_peek net generic pk s) (pool_peek-Usable net generic pk s),
  (let key = bucket_key pk target in
      count_target-Usable net cfg key (pool_peek net targeted key s)
        (pool_peek-Usable net targeted key s)),
)

-- requests at given times
unfoldable pub requests_at : Config → List ℕ → Pools → Pools
requests_at cfg [] s = s
requests_at cfg (t ∷ ts) s = requests_at cfg ts (record_request_activity cfg t s)

-- each time is later than the one before by more than the window
abbrev pub Sparse : ℕ → ℕ → List ℕ → Type 0
Sparse w last [] = Unit
Sparse w last (t ∷ ts) = (last + w < t) × Sparse w t ts

sparse_window :
    (cfg : Config) (last now : ℕ) (s : Pools)
    → s.timestamps ≡ last ∷ []
    → last + cfg.activity_window < now
    → window cfg now s ≡ now ∷ []
unfolding recent
sparse_window cfg last now s only gap = ground (arith, only, gap)

one_request :
    (cfg : Config) (now : ℕ) (s : Pools)
    → 0 < cfg.activity_window
    → 1 < cfg.min_requests
    → window cfg now s ≡ now ∷ []
    → record_request_activity cfg now s ≡ record s { timestamps = now ∷ [] }
unfolding record_request_activity
one_request cfg now s on k w = ground (arith, on, k, w)

-- Requests that are farther apart than the window, as background heartbeats are, never count as
-- activity, however many they are, when a window and a threshold of at least two are configured.
pub requests_at-Sparse :
    (cfg : Config) (ts : List ℕ) (last : ℕ) (s : Pools)
    → 0 < cfg.activity_window
    → 1 < cfg.min_requests
    → s.timestamps ≡ last ∷ []
    → Sparse cfg.activity_window last ts
    → (requests_at cfg ts s).last_activity ≡ s.last_activity
unfolding requests_at
requests_at-Sparse cfg [] last s on k only gaps = refl
requests_at-Sparse cfg (t ∷ ts) last s on k only gaps =
    let next : Pools = record s { timestamps = t ∷ [] } in
    ap (λ u. (requests_at cfg ts u).last_activity)
      (one_request cfg t s on k (sparse_window cfg last t s only gaps.0))
    ∙ requests_at-Sparse cfg ts t next on k refl gaps.1
