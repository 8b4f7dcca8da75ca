-- ===== src/Pools/Tasks.antt =====
-- The tasks that open connections and the requests that take them, in any order.
use auto_squid.Pools.{Sockets, Config, Pools}
use auto_squid.Pools.Peeking.{conn_pool_peek, target_pool_peek, pool_prune}
use auto_squid.Pools.Filling.{
  Flight, may_refill, begin_refill, begin_target_refill, land, fail, cancel,
}
use auto_squid.Pools.Activity.{record_request_activity}
use auto_squid.Base.{
  ℕ, zero, suc, ◌≡◌, Bool, false, ◌||◌, Option, none, some, List, [], ◌∷◌, if◌then◌else◌, nat_eq,
  Text, text_eq, contains,
}

-- the pools and the tasks that wait for a connection
pub record World : Type 0 where
  pub pools : Pools
  pub flights : List Flight

-- a key `f"{host}:{port}"`, in which no bar stands
pub record ProxyKey : Type 0 where
  pub key : Text
  pub plain : contains b'|' key ≡ false

-- a refill asks whether it may run when it is entered, and not again in the rounds of its loop
pub data Event : Type 0 where
  refill : Bool → ℕ → ProxyKey → Event
  prewarm : Bool → ℕ → ProxyKey → Text → ℕ → Bool → Event
  opened : ℕ → ℕ → ℕ → Event
  refused : ℕ → Event
  cancelled : ℕ → Event
  take_generic : Sockets → Text → Event
  take_targeted : Sockets → Text → Text → Event
  prune : Sockets → ℕ → Event
  requested : ℕ → Event

abbrev pub put_back : Flight → Option (Flight × List Flight) → Option (Flight × List Flight)
put_back f none = none
put_back f (some (g, gs)) = some (g, f ∷ gs)

-- the task at a place, and the others
unfoldable pub pick : ℕ → List Flight → Option (Flight × List Flight)
pick i [] = none
pick zero (f ∷ fs) = some (f, fs)
pick (suc i) (f ∷ fs) = put_back f (pick i fs)

unfoldable pub take_off : World → Option (Flight × Pools) → World
take_off w none = w
take_off w (some (f, s)) = record { pools = s; flights = f ∷ w.flights }

unfoldable pub come_down : World → (Flight → Pools → Pools) → Option (Flight × List Flight) → World
come_down w go none = w
come_down w go (some (f, fs)) = record { pools = go f w.pools; flights = fs }

unfoldable pub step : Config → Event → World → World
unfolding may_refill take_off come_down pick
step cfg (refill entered now p) w =
    if entered || may_refill cfg now w.pools then take_off w (begin_refill cfg p.key w.pools) else w
step cfg (prewarm entered now p target cap cluster) w =
    if entered || may_refill cfg now w.pools
    then take_off w (begin_target_refill cfg p.key target cap cluster w.pools)
    else w
step cfg (opened i id now) w = come_down w (land id now) (pick i w.flights)
step cfg (refused i) w = come_down w fail (pick i w.flights)
step cfg (cancelled i) w = come_down w cancel (pick i w.flights)
step cfg (take_generic net pk) w = record w { pools = (conn_pool_peek net pk w.pools).1 }
step cfg (take_targeted net pk target) w = record w {
  pools = (target_pool_peek net cfg pk target w.pools).1;
}
step cfg (prune net now) w = record w { pools = pool_prune net cfg now w.pools }
step cfg (requested now) w = record w { pools = record_request_activity cfg now w.pools }

unfoldable pub run : Config → List Event → World → World
unfolding step
run cfg [] w = w
run cfg (e ∷ es) w = run cfg es (step cfg e w)
