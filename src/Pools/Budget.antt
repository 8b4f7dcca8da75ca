-- ===== src/Pools/Budget.antt =====
-- The budget of connections under every interleaving of the tasks that open them.
use auto_squid.Pools.{
  Config, Pools, proxy_of, number, stack, bucket_key, total_idle, budget_left, global_room,
  begin_create,
}
use auto_squid.Pools.Filling.{Flight, begin_refill, begin_target_refill}
use auto_squid.Pools.Tasks.{World, ProxyKey, take_off}
use auto_squid.Pools.Accounts.{held, IsCounted, Shrinks, number-put}
use auto_squid.Pools.Opening.{proxy_of-plain, proxy_of-bucket_key, one_if, pool_key}
use auto_squid.Base.{
  ℕ, ◌+◌, ◌≤◌, ◌<◌, ◌≡◌, ap, ◌∙◌, Bool, true, false, ◌&&◌, none, some, List, [], ◌∷◌, arith, ltb,
  if_elim, nat_eq, Text, text_eq, length, pair_eq, option_eq,
}
use auto_squid.Dict.{Dict, lookup}

-- how many tasks wait for a connection to a proxy
unfoldable pub flights_of : Text → List Flight → ℕ
flights_of pk [] = 0
flights_of pk (f ∷ fs) = one_if f.proxy_key pk + flights_of pk fs

abbrev pub AllAimed : List Flight → Type 0
AllAimed [] = Unit
AllAimed (f ∷ fs) = (proxy_of (pool_key f.proxy_key f.bucket) ≡ f.proxy_key) × AllAimed fs

pub record IsWithin (cfg : Config) (w : World) : Type 0 where
  pub is_counted : IsCounted w.pools
  pub aimed : AllAimed w.flights
  pub balance : w.pools.begun ≡ w.pools.ended + length w.flights
  pub pending : (pk : Text) → number (lookup pk w.pools.creates_by_key) ≡ flights_of pk w.flights
  pub in_total : total_idle w.pools + length w.flights ≤ cfg.total_limit
  pub in_share :
      (pk : Text)
      → held pk w.pools.conn_pool + held pk w.pools.target_pool + flights_of pk w.flights
        ≤ cfg.per_proxy

pub shrunk :
    (cfg : Config) (w : World) (t : Pools)
    → IsWithin cfg w
    → Shrinks w.pools t
    → IsWithin cfg (record w { pools = t })
shrunk cfg w t h a = record {
  is_counted = a.is_counted;
  aimed = h.aimed;
  balance = ground (arith, h.balance, a.begun, a.ended);
  pending = λ pk. ap (λ (d : Dict Text ℕ). number (lookup pk d)) a.pending ∙ h.pending pk;
  in_total = omega (arith, h.in_total, a.fewer);
  in_share = λ pk. omega (arith, h.in_share pk, a.fewer_of pk);
}

-- room for one more
budget_room :
    (cfg : Config) (pk : Text) (w : World)
    → IsWithin cfg w
    → ltb 0 (budget_left cfg pk w.pools) ≡ true
    → (total_idle w.pools + length w.flights < cfg.total_limit)
      × (held pk w.pools.conn_pool + held pk w.pools.target_pool + flights_of pk w.flights
          < cfg.per_proxy)
unfolding budget_left global_room
budget_room cfg pk w h room = ground (arith, room, h.balance, h.pending pk, h.is_counted.counted pk)

begun-IsWithin :
    (cfg : Config) (f : Flight) (w : World)
    → IsWithin cfg w
    → proxy_of (pool_key f.proxy_key f.bucket) ≡ f.proxy_key
    → ltb 0 (budget_left cfg f.proxy_key w.pools) ≡ true
    → IsWithin cfg
        (record { pools = begin_create f.proxy_key f.bucket w.pools; flights = f ∷ w.flights })
unfolding begin_create total_idle flights_of
begun-IsWithin cfg f w h aim ok =
    let room = budget_room cfg f.proxy_key w h ok in
    record {
      is_counted = record {
        generic_keys = h.is_counted.generic_keys;
        target_keys = h.is_counted.target_keys;
        counted = h.is_counted.counted;
      };
      aimed = (aim, h.aimed);
      balance = omega (arith, h.balance);
      pending = λ pk. ground (
        arith,
        number-put f.proxy_key pk (number (lookup f.proxy_key w.pools.creates_by_key) + 1)
            w.pools.creates_by_key,
        h.pending pk,
        text_eq.beq_iff f.proxy_key pk,
      );
      in_total = omega (arith, room.0);
      in_share = λ pk. ground (arith, h.in_share pk, room.1, text_eq.beq_iff f.proxy_key pk);
    }

pub begin_refill-IsWithin :
    (cfg : Config) (p : ProxyKey) (w : World)
    → IsWithin cfg w
    → IsWithin cfg (take_off w (begin_refill cfg p.key w.pools))
unfolding begin_refill take_off
begin_refill-IsWithin cfg p w h =
    let f : Flight = record { proxy_key = p.key; bucket = none; cluster = false } in
    if_elim (λ r. IsWithin cfg (take_off w r))
      (ltb (length (stack (lookup p.key w.pools.conn_pool))) cfg.refill_target
        && ltb 0 (budget_left cfg p.key w.pools))
      (λ ok. begun-IsWithin cfg f w h (proxy_of-plain p.key p.plain) (ground (arith, ok))) (λ _. h)

pub begin_target_refill-IsWithin :
    (cfg : Config) (p : ProxyKey) (target : Text) (most : ℕ) (cluster : Bool) (w : World)
    → IsWithin cfg w
    → IsWithin cfg (take_off w (begin_target_refill cfg p.key target most cluster w.pools))
unfolding begin_target_refill take_off
begin_target_refill-IsWithin cfg p target most cluster w h =
    let key = bucket_key p.key target in
    let f : Flight = record { proxy_key = p.key; bucket = some key; cluster = cluster } in
    if_elim (λ r. IsWithin cfg (take_off w r))
      (ltb
          (length (stack (lookup key w.pools.target_pool))
            + number (lookup key w.pools.creates_by_bucket))
          most
        && ltb 0 (budget_left cfg p.key w.pools))
      (λ ok.
        begun-IsWithin cfg f w h (proxy_of-bucket_key p.key target p.plain) (ground (arith, ok)))
      (λ _. h)
