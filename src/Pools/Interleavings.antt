-- ===== src/Pools/Interleavings.antt =====
-- The budget holds under every interleaving.
use auto_squid.Pools.{Config, Pools, proxy_of}
use auto_squid.Pools.Peeking.{conn_pool_peek, target_pool_peek, pool_prune}
use auto_squid.Pools.Filling.{Flight, may_refill, land, fail, cancel}
use auto_squid.Pools.Activity.{window, record_request_activity}
use auto_squid.Pools.Tasks.{
  World, Event, refill, prewarm, opened, refused, cancelled, take_generic, take_targeted, prune,
  requested, pick, put_back, come_down, step, run,
}
use auto_squid.Pools.Accounts.{IsCounted, Shrinks, Shrinks-refl}
use auto_squid.Pools.Stealing.{then_count, books, conn_pool_peek-Shrinks, target_pool_peek-Shrinks}
use auto_squid.Pools.Pruning.{pool_prune-Shrinks}
use auto_squid.Pools.Opening.{one_if, pool_key, Lands, land-Lands, Ends, cancel-Ends, fail-Ends}
use auto_squid.Pools.Budget.{
  flights_of, AllAimed, IsWithin, shrunk, begin_refill-IsWithin, begin_target_refill-IsWithin,
}
use auto_squid.Base.{
  ℕ, zero, suc, ◌+◌, ◌≡◌, refl, ap, ◌||◌, Option, none, some, List, [], ◌∷◌, arith, ltb, leb,
  if_elim, ◌==◌, nat_eq, Text, text_eq, pair_eq, option_eq, length,
}

-- what is left of the tasks when one is over
pub record IsPicked (fs : List Flight) (r : Flight × List Flight) : Type 0 where
  pub aim : proxy_of (pool_key r.0.proxy_key r.0.bucket) ≡ r.0.proxy_key
  pub aimed : AllAimed r.1
  pub fewer : length fs ≡ suc (length r.1)
  pub fewer_of : (pk : Text) → flights_of pk fs ≡ one_if r.0.proxy_key pk + flights_of pk r.1

abbrev Picked : List Flight → Option (Flight × List Flight) → Type 0
Picked fs none = Unit
Picked fs (some r) = IsPicked fs r

put_back-Picked :
    (f : Flight) (fs : List Flight) (o : Option (Flight × List Flight))
    → proxy_of (pool_key f.proxy_key f.bucket) ≡ f.proxy_key
    → Picked fs o
    → Picked (f ∷ fs) (put_back f o)
unfolding flights_of
put_back-Picked f fs none aim p = tt
put_back-Picked f fs (some r) aim p = record {
  aim = p.aim;
  aimed = (aim, p.aimed);
  fewer = ap suc p.fewer;
  fewer_of = λ pk. omega (arith, p.fewer_of pk);
}

pick_lem : (i : ℕ) (fs : List Flight) → AllAimed fs → Picked fs (pick i fs)
unfolding pick flights_of
pick_lem i [] h = tt
pick_lem zero (f ∷ fs) h = record { aim = h.0; aimed = h.1; fewer = refl; fewer_of = λ pk. refl }
pick_lem (suc i) (f ∷ fs) h = put_back-Picked f fs (pick i fs) h.0 (pick_lem i fs h.1)

over-IsWithin :
    (cfg : Config) (w : World) (r : Flight × List Flight) (t : Pools)
    → IsWithin cfg w
    → IsPicked w.flights r
    → Ends r.0.proxy_key w.pools t
    → IsWithin cfg (record { pools = t; flights = r.1 })
over-IsWithin cfg w r t h p e = record {
  is_counted = e.is_counted;
  aimed = p.aimed;
  balance = ground (arith, h.balance, e.begun, e.ended, p.fewer);
  pending = λ pk. ground (arith, h.pending pk, e.pending pk, p.fewer_of pk);
  in_total = omega (arith, h.in_total, e.idle, p.fewer);
  in_share = λ pk. omega (arith, h.in_share pk, e.of_proxy pk, p.fewer_of pk);
}

landed-IsWithin :
    (cfg : Config) (w : World) (r : Flight × List Flight) (t : Pools)
    → IsWithin cfg w
    → IsPicked w.flights r
    → Lands r.0.proxy_key w.pools t
    → IsWithin cfg (record { pools = t; flights = r.1 })
landed-IsWithin cfg w r t h p e = record {
  is_counted = e.is_counted;
  aimed = p.aimed;
  balance = ground (arith, h.balance, e.begun, e.ended, p.fewer);
  pending = λ pk. ground (arith, h.pending pk, e.pending pk, p.fewer_of pk);
  in_total = omega (arith, h.in_total, e.idle, p.fewer);
  in_share = λ pk. omega (arith, h.in_share pk, e.of_proxy pk, p.fewer_of pk);
}

come_down-IsWithin :
    (cfg : Config) (w : World) (go : Flight → Pools → Pools) (o : Option (Flight × List Flight))
    → IsWithin cfg w
    → Picked w.flights o
    → ((r : Flight × List Flight)
        → IsPicked w.flights r
        → IsWithin cfg (record { pools = go r.0 w.pools; flights = r.1 }))
    → IsWithin cfg (come_down w go o)
unfolding come_down
come_down-IsWithin cfg w go none h p each = h
come_down-IsWithin cfg w go (some r) h p each = each r p

record_request_activity-Shrinks :
    (cfg : Config) (now : ℕ) (s : Pools)
    → IsCounted s
    → Shrinks s (record_request_activity cfg now s)
unfolding record_request_activity
record_request_activity-Shrinks cfg now s h =
    then_count s s (record_request_activity cfg now s) (Shrinks-refl s h) (
      if_elim (λ (t : Pools). books t ≡ books s)
        (cfg.activity_window == 0 || leb cfg.min_requests 1) (λ _. refl)
        (λ _.
          if_elim (λ (t : Pools). books t ≡ books s)
            (ltb (length (window cfg now s)) cfg.min_requests) (λ _. refl) (λ _. refl)))

step-IsWithin :
    (cfg : Config) (e : Event) (w : World) → IsWithin cfg w → IsWithin cfg (step cfg e w)
unfolding step
step-IsWithin cfg (refill entered now p) w h =
    if_elim (IsWithin cfg) (entered || may_refill cfg now w.pools)
      (λ _. begin_refill-IsWithin cfg p w h) (λ _. h)
step-IsWithin cfg (prewarm entered now p target most cluster) w h =
    if_elim (IsWithin cfg) (entered || may_refill cfg now w.pools)
      (λ _. begin_target_refill-IsWithin cfg p target most cluster w h) (λ _. h)
step-IsWithin cfg (opened i id now) w h =
    come_down-IsWithin cfg w (land id now) (pick i w.flights) h (pick_lem i w.flights h.aimed)
      (λ r p.
        landed-IsWithin cfg w r (land id now r.0 w.pools) h p
          (land-Lands id now r.0 w.pools p.aim h.is_counted))
step-IsWithin cfg (refused i) w h =
    come_down-IsWithin cfg w fail (pick i w.flights) h (pick_lem i w.flights h.aimed)
      (λ r p. over-IsWithin cfg w r (fail r.0 w.pools) h p (fail-Ends r.0 w.pools h.is_counted))
step-IsWithin cfg (cancelled i) w h =
    come_down-IsWithin cfg w cancel (pick i w.flights) h (pick_lem i w.flights h.aimed)
      (λ r p. over-IsWithin cfg w r (cancel r.0 w.pools) h p (cancel-Ends r.0 w.pools h.is_counted))
step-IsWithin cfg (take_generic net pk) w h =
    shrunk cfg w (conn_pool_peek net pk w.pools).1 h
      (conn_pool_peek-Shrinks net pk w.pools h.is_counted)
step-IsWithin cfg (take_targeted net pk target) w h =
    shrunk cfg w (target_pool_peek net cfg pk target w.pools).1 h
      (target_pool_peek-Shrinks net cfg pk target w.pools h.is_counted)
step-IsWithin cfg (prune net now) w h =
    shrunk cfg w (pool_prune net cfg now w.pools) h
      (pool_prune-Shrinks net cfg now w.pools h.is_counted)
step-IsWithin cfg (requested now) w h =
    shrunk cfg w (record_request_activity cfg now w.pools) h
      (record_request_activity-Shrinks cfg now w.pools h.is_counted)

-- Whatever the order in which refills and prewarming tasks start, in which their connections are
-- opened, refused or cancelled, and in which requests take connections or idle ones are closed: the
-- idle connections and those being opened together never exceed the total limit, those of one proxy
-- never exceed its share, and the counters agree with the pools and with the tasks in flight.
pub run-IsWithin :
    (cfg : Config) (es : List Event) (w : World) → IsWithin cfg w → IsWithin cfg (run cfg es w)
unfolding run
run-IsWithin cfg [] w h = h
run-IsWithin cfg (e ∷ es) w h = run-IsWithin cfg es (step cfg e w) (step-IsWithin cfg e w h)
