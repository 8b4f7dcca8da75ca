-- ===== src/Pools/Filling.antt =====
-- Opening connections ahead of time, and the life of the pools. The refills wait for each
-- connection, so they are split where they do: what runs before the wait and what runs after it.
use auto_squid.Pools.{
  Conn, Config, Pools, bucket_key, number, stack, mark_cluster_ever, count_put, index_target_key,
  budget_left, begin_create, end_create,
}
use auto_squid.Pools.Activity.{conn_pool_idle}
use auto_squid.Base.{
  ℕ, ◌+◌, Bool, true, false, not, ◌&&◌, ◌||◌, Option, none, some, [], ◌∷◌, ltb, if◌then◌else◌, ◌==◌,
  nat_eq, Text, text_eq, pair_eq, option_eq, length,
}
use auto_squid.Dict.{lookup, put}

-- a connection that is being opened: `key` is its pool key
pub record Flight : Type 0 where
  pub proxy_key : Text
  pub bucket : Option Text
  pub cluster : Bool

-- the guards at the head of both refills
unfoldable pub may_refill : Config → ℕ → Pools → Bool
unfolding conn_pool_idle
may_refill cfg now s = cfg.enabled && not (conn_pool_idle cfg now s)

-- `_conn_pool_refill` for one proxy, up to the wait
unfoldable pub begin_refill : Config → Text → Pools → Option (Flight × Pools)
unfolding budget_left begin_create
begin_refill cfg pk s =
    if ltb (length (stack (lookup pk s.conn_pool))) cfg.refill_target
      && ltb 0 (budget_left cfg pk s)
    then some (record { proxy_key = pk; bucket = none; cluster = false }, begin_create pk none s)
    else none

-- `_target_pool_refill`, up to the wait
unfoldable pub begin_target_refill :
    Config → Text → Text → ℕ → Bool → Pools → Option (Flight × Pools)
unfolding budget_left begin_create
begin_target_refill cfg pk target cap cluster s =
    let key = bucket_key pk target in
    if ltb (length (stack (lookup key s.target_pool)) + number (lookup key s.creates_by_bucket)) cap
      && ltb 0 (budget_left cfg pk s)
    then some (
      record { proxy_key = pk; bucket = some key; cluster = cluster },
      begin_create pk (some key) s,
    )
    else none

abbrev pub new_conn : ℕ → ℕ → Bool → Conn
new_conn id now cluster = record {
  id = id;
  created = now;
  cluster_prewarmed = cluster;
  consumed_unexpired = false;
}

-- `_conn_pool_refill`, after a connection was opened
unfoldable pub land_generic : ℕ → ℕ → Text → Pools → Pools
unfolding count_put
land_generic id now pk s = count_put pk 1 (record s {
  conn_pool = put pk (new_conn id now false ∷ stack (lookup pk s.conn_pool)) s.conn_pool;
  conn_creates = s.conn_creates + 1;
})

abbrev pub mark_source : Bool → Text → Pools → Pools
mark_source false key s = s
mark_source true key s =
    mark_cluster_ever key (record s { cluster_creates = s.cluster_creates + 1 })

-- `_target_pool_refill`, after a connection was opened
unfoldable pub land_targeted : ℕ → ℕ → Bool → Text → Pools → Pools
unfolding mark_cluster_ever index_target_key count_put
land_targeted id now cluster key s0 =
    let s = mark_source cluster key s0 in
    count_put key 1 (
      index_target_key key (record s {
        target_pool =
            put key (new_conn id now cluster ∷ stack (lookup key s.target_pool)) s.target_pool;
        target_creates = s.target_creates + 1;
        prewarm_success = s.prewarm_success + 1;
      }))

unfoldable pub land_at : ℕ → ℕ → Bool → Text → Option Text → Pools → Pools
unfolding end_create land_generic land_targeted
land_at id now cluster pk none s = land_generic id now pk (end_create pk none s)
land_at id now cluster pk (some key) s =
    land_targeted id now cluster key (end_create pk (some key) s)

-- a connection was opened, with its number and the time
unfoldable pub land : ℕ → ℕ → Flight → Pools → Pools
unfolding land_at
land id now f s = land_at id now f.cluster f.proxy_key f.bucket s

abbrev pub count_failed : Option Text → Pools → Pools
count_failed none s = s
count_failed (some key) s = record s { prewarm_failed = s.prewarm_failed + 1 }

-- the connection was refused or timed out
unfoldable pub fail : Flight → Pools → Pools
unfolding end_create
fail f s = count_failed f.bucket (end_create f.proxy_key f.bucket s)

-- the task was cancelled: only `finally` runs
unfoldable pub cancel : Flight → Pools → Pools
unfolding end_create
cancel f s = end_create f.proxy_key f.bucket s

-- `_conn_pool_close_all`
unfoldable pub conn_pool_close_all : Pools → Pools
conn_pool_close_all s = record s {
  conn_pool = [];
  target_pool = [];
  target_keys_by_proxy = [];
  proxy_conn_count = [];
  begun = 0;
  ended = 0;
  creates_by_key = [];
  creates_by_bucket = [];
}

-- `start`
unfoldable pub start : Config → Pools → Pools
start cfg s = if not cfg.enabled || cfg.refill_interval == 0 then s else record s { running = true }

-- `stop`
unfoldable pub stop : Pools → Pools
unfolding conn_pool_close_all
stop s = conn_pool_close_all (record s { running = false })
