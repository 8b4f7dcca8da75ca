-- ===== src/Tests/Connections.antt =====
-- The connection pools at concrete inputs.
use auto_squid.Pools.{Sockets, Config, Pools, global_room, total_idle}
use auto_squid.Pools.Filling.{Flight, conn_pool_close_all}
use auto_squid.Pools.Peeking.{conn_pool_peek, target_pool_peek}
use auto_squid.Pools.Tasks.{
  World, ProxyKey, Event, refill, prewarm, opened, refused, take_generic, run,
}
use auto_squid.Pools.Accounts.{held}
use auto_squid.Pools.Budget.{IsWithin, flights_of}
use auto_squid.Pools.Interleavings.{run-IsWithin}
use auto_squid.Pools.Stopping.{cancel_all, conn_pool_close_all-overdraws}
use auto_squid.Pools.Freshness.{Usable, peek-Usable}
use auto_squid.Base.{
  ◌≡◌, refl, true, false, none, List, [], ◌∷◌, arith, nat_eq, text_eq, contains, text,
}
use auto_squid.Dict.{total, lookup}

abbrev pooling : Config
pooling = record {
  enabled = true;
  per_proxy = 2;
  total_limit = 3;
  idle_timeout = 180;
  cluster_idle_timeout = 600;
  refill_interval = 10;
  refill_target = 2;
  pause = 3600;
  activity_window = 120;
  min_requests = 3;
  cluster_predict = true;
}

abbrev no_pools : Pools
no_pools = record {
  conn_pool = [];
  target_pool = [];
  target_keys_by_proxy = [];
  proxy_conn_count = [];
  begun = 0;
  ended = 0;
  creates_by_key = [];
  creates_by_bucket = [];
  cluster_ever = [];
  running = true;
  last_activity = 0;
  timestamps = 50 ∷ [];
  conn_creates = 0;
  conn_hits = 0;
  conn_misses = 0;
  conn_expired = 0;
  stale_discards = 0;
  steals = 0;
  target_creates = 0;
  target_hits = 0;
  target_misses = 0;
  target_expired = 0;
  cluster_creates = 0;
  cluster_hits = 0;
  cluster_expired = 0;
  timing_miss = 0;
  bucket_miss = 0;
  consumed_expired = 0;
  prewarm_success = 0;
  prewarm_failed = 0;
}

abbrev idle_world : World
idle_world = record { pools = no_pools; flights = [] }

abbrev proxy_a : ProxyKey
unfolding contains
proxy_a = record { key = text "a:1"; plain = refl }

abbrev alive : Sockets
alive = record { is_closing = λ _. false; at_eof = λ _. false; pending_bytes = λ _. 0 }

abbrev busy : List Event
busy =
    refill false 10 proxy_a
    ∷ prewarm false 11 proxy_a (text "t") 2 true
    ∷ refill true 12 proxy_a
    ∷ opened 1 7 13
    ∷ take_generic alive (text "a:1")
    ∷ refused 0
    ∷ []

idle_world-IsWithin : IsWithin pooling idle_world
unfolding held flights_of total_idle lookup total
idle_world-IsWithin = record {
  is_counted = record { generic_keys = tt; target_keys = tt; counted = λ pk. refl };
  aimed = tt;
  balance = refl;
  pending = λ pk. refl;
  in_total = omega arith;
  in_share = λ pk. omega arith;
}

run-IsWithin_example : IsWithin pooling (run pooling busy idle_world)
run-IsWithin_example = run-IsWithin pooling busy idle_world idle_world-IsWithin

abbrev waiting : List Flight
waiting =
    record { proxy_key = text "a:1"; bucket = none; cluster = false }
    ∷ record { proxy_key = text "b:1"; bucket = none; cluster = false }
    ∷ []

conn_pool_close_all-overdraws_example :
    global_room pooling (cancel_all waiting (conn_pool_close_all no_pools)) ≡ 5
conn_pool_close_all-overdraws_example = conn_pool_close_all-overdraws pooling waiting no_pools

abbrev stocked : Pools
stocked = record no_pools {
  conn_pool =
      (
        text "a:1",
        record { id = 1; created = 5; cluster_prewarmed = false; consumed_unexpired = false } ∷ [],
      )
      ∷ [];
}

peek-Usable_example :
    Usable alive (conn_pool_peek alive (text "a:1") stocked).0
    × Usable alive (target_pool_peek alive pooling (text "a:1") (text "t") stocked).0
peek-Usable_example = peek-Usable alive pooling (text "a:1") (text "t") stocked
