-- ===== src/Pools/Stealing.antt =====
-- Both ways of taking a connection keep the counts right, stolen connections included.
use auto_squid.Pools.{Conn, Sockets, Config, generic, targeted, Pools, bucket_key, number}
use auto_squid.Pools.Peeking.{
  pool_peek, steal_from, steal_from_target_pool, or_steal, donors, keys_of, conn_pool_peek,
  hit_or_steal, count_miss, target_pool_peek, count_target,
}
use auto_squid.Pools.Accounts.{IsCounted, Shrinks, Shrinks-refl, Shrinks-trans, Same, Same-Shrinks}
use auto_squid.Pools.Taking.{pool_peek-Shrinks}
use auto_squid.Base.{
  ℕ, ◌+◌, ◌≡◌, refl, ap, not, Option, none, some, List, [], ◌∷◌, ltb, if_elim, nat_eq, Text,
  text_eq,
}
use auto_squid.Dict.{Dict, lookup}

-- what the counts are about
abbrev pub Books : Type 0
Books = Dict Text (List Conn) × Dict Text (List Conn) × Dict Text ℕ × ℕ × ℕ × Dict Text ℕ

abbrev pub books : Pools → Books
books s = (s.conn_pool, s.target_pool, s.proxy_conn_count, s.begun, s.ended, s.creates_by_key)

pub books-Same : (s t : Pools) → books t ≡ books s → Same s t
books-Same s t h = record {
  conn_pool = ap (λ (b : Books). b.0) h;
  target_pool = ap (λ (b : Books). b.1) h;
  counts = ap (λ (b : Books). b.2) h;
  begun = ap (λ (b : Books). b.3) h;
  ended = ap (λ (b : Books). b.4) h;
  pending = ap (λ (b : Books). b.5) h;
}

-- other counters may change after connections were taken out
pub then_count : (s t u : Pools) → Shrinks s t → books u ≡ books t → Shrinks s u
then_count s t u a h = Shrinks-trans s t u a (Same-Shrinks t u a.is_counted (books-Same t u h))

or_steal-Shrinks :
    (s : Pools) (got later : Option Conn × Pools)
    → Shrinks s got.1
    → Shrinks s later.1
    → Shrinks s (or_steal got later).1
or_steal-Shrinks s (none, t) later a b = b
or_steal-Shrinks s (some c, t) later a b =
    then_count s t (record t { steals = t.steals + 1 }) a refl

steal_from-Shrinks :
    (net : Sockets) (ds : List (ℕ × Text)) (s : Pools)
    → IsCounted s
    → Shrinks s (steal_from net ds s).1
unfolding steal_from
steal_from-Shrinks net [] s h = Shrinks-refl s h
steal_from-Shrinks net (d ∷ ds) s h =
    let got = pool_peek net targeted d.1 s in
    let a = pool_peek-Shrinks net targeted d.1 s h in
    or_steal-Shrinks s got (steal_from net ds got.1) a (
      Shrinks-trans s got.1 (steal_from net ds got.1).1 a
        (steal_from-Shrinks net ds got.1 a.is_counted))

count_miss-Shrinks :
    (s : Pools) (r : Option Conn × Pools) → Shrinks s r.1 → Shrinks s (count_miss r).1
count_miss-Shrinks s (none, t) a =
    then_count s t (record t { conn_misses = t.conn_misses + 1 }) a refl
count_miss-Shrinks s (some c, t) a = a

hit_or_steal-Shrinks :
    (net : Sockets) (pk : Text) (s : Pools) (r : Option Conn × Pools)
    → Shrinks s r.1
    → Shrinks s (hit_or_steal net pk r).1
unfolding steal_from_target_pool
hit_or_steal-Shrinks net pk s (some c, t) a =
    then_count s t (record t { conn_hits = t.conn_hits + 1 }) a refl
hit_or_steal-Shrinks net pk s (none, t) a =
    let ds = donors (keys_of (lookup pk t.target_keys_by_proxy)) t in
    count_miss-Shrinks s (steal_from net ds t)
      (Shrinks-trans s t (steal_from net ds t).1 a (steal_from-Shrinks net ds t a.is_counted))

pub conn_pool_peek-Shrinks :
    (net : Sockets) (pk : Text) (s : Pools) → IsCounted s → Shrinks s (conn_pool_peek net pk s).1
unfolding conn_pool_peek
conn_pool_peek-Shrinks net pk s h =
    hit_or_steal-Shrinks net pk s (pool_peek net generic pk s)
      (pool_peek-Shrinks net generic pk s h)

count_target-Shrinks :
    (cfg : Config) (key : Text) (s : Pools) (r : Option Conn × Pools)
    → Shrinks s r.1
    → Shrinks s (count_target cfg key r).1
count_target-Shrinks cfg key s (none, t) a =
    let u : Pools = record t { target_misses = t.target_misses + 1 } in
    if_elim (Shrinks s) (not cfg.cluster_predict) (λ _. then_count s t u a refl)
      (λ _.
        if_elim (Shrinks s) (ltb 0 (number (lookup key u.cluster_ever)))
          (λ _. then_count s t (record u { timing_miss = u.timing_miss + 1 }) a refl)
          (λ _. then_count s t (record u { bucket_miss = u.bucket_miss + 1 }) a refl))
count_target-Shrinks cfg key s (some c, t) a =
    if_elim (λ (r : Option Conn × Pools). Shrinks s r.1) c.cluster_prewarmed
      (λ _.
        then_count s t
          (record t { target_hits = t.target_hits + 1; cluster_hits = t.cluster_hits + 1 }) a refl)
      (λ _. then_count s t (record t { target_hits = t.target_hits + 1 }) a refl)

pub target_pool_peek-Shrinks :
    (net : Sockets) (cfg : Config) (pk target : Text) (s : Pools)
    → IsCounted s
    → Shrinks s (target_pool_peek net cfg pk target s).1
unfolding target_pool_peek
target_pool_peek-Shrinks net cfg pk target s h =
    let key = bucket_key pk target in
    count_target-Shrinks cfg key s (pool_peek net targeted key s)
      (pool_peek-Shrinks net targeted key s h)
