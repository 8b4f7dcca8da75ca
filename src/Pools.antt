-- ===== src/Pools.antt =====
-- The pools of connections opened ahead of time (`ConnectionPools` of auto_squid/pools.py). A stack
-- is kept with its top first. The counter of connections that are being opened can go below 0 in the
-- code, so it is kept as two numbers, begun less ended. What the socket layer answers about a
-- connection is a record; closing a connection is output and left out.
pub mod Peeking
pub mod Filling
pub mod Activity
pub mod Accounts
pub mod Taking
pub mod Stealing
pub mod Pruning
pub mod Opening
pub mod Tasks
pub mod Budget
pub mod Interleavings
pub mod Freshness
pub mod Stopping
use auto_squid.Base.{
  ℕ, ◌+◌, ◌-◌, min, Bool, Option, none, some, List, [], ◌∷◌, ◌++◌, ltb, if◌then◌else◌, ◌==◌, nat_eq,
  Text, text_eq, pair_eq, option_eq, length, drop, set_add, set_discard,
}
use auto_squid.Dict.{Dict, size, total, lookup, put, remove}

-- what the code marks on a writer
pub record Conn : Type 0 where
  pub id : ℕ
  pub created : ℕ
  pub cluster_prewarmed : Bool
  pub consumed_unexpired : Bool

pub record Sockets : Type 0 where
  pub is_closing : ℕ → Bool
  pub at_eof : ℕ → Bool
  pub pending_bytes : ℕ → ℕ

pub record Config : Type 0 where
  pub enabled : Bool
  pub per_proxy : ℕ
  pub total_limit : ℕ
  pub idle_timeout : ℕ
  pub cluster_idle_timeout : ℕ
  pub refill_interval : ℕ
  pub refill_target : ℕ
  pub pause : ℕ
  pub activity_window : ℕ
  pub min_requests : ℕ
  pub cluster_predict : Bool

-- the two pools that `_pool_peek` is called on
pub data Pool : Type 0 where
  generic targeted : Pool

pub record Pools : Type 0 where
  pub conn_pool : Dict Text (List Conn)
  pub target_pool : Dict Text (List Conn)
  pub target_keys_by_proxy : Dict Text (List Text)
  pub proxy_conn_count : Dict Text ℕ
  pub begun : ℕ
  pub ended : ℕ
  pub creates_by_key : Dict Text ℕ
  pub creates_by_bucket : Dict Text ℕ
  pub cluster_ever : Dict Text ℕ
  pub running : Bool
  pub last_activity : ℕ
  pub timestamps : List ℕ
  pub conn_creates : ℕ
  pub conn_hits : ℕ
  pub conn_misses : ℕ
  pub conn_expired : ℕ
  pub stale_discards : ℕ
  pub steals : ℕ
  pub target_creates : ℕ
  pub target_hits : ℕ
  pub target_misses : ℕ
  pub target_expired : ℕ
  pub cluster_creates : ℕ
  pub cluster_hits : ℕ
  pub cluster_expired : ℕ
  pub timing_miss : ℕ
  pub bucket_miss : ℕ
  pub consumed_expired : ℕ
  pub prewarm_success : ℕ
  pub prewarm_failed : ℕ

abbrev pub pool_of : Pool → Pools → Dict Text (List Conn)
pool_of generic s = s.conn_pool
pool_of targeted s = s.target_pool

abbrev pub set_pool : Pool → Dict Text (List Conn) → Pools → Pools
set_pool generic d s = record s { conn_pool = d }
set_pool targeted d s = record s { target_pool = d }

-- `_CLUSTER_EVER_MAX_KEYS`
abbrev pub cluster_ever_max : ℕ
cluster_ever_max = 4096

-- `_proxy_of`
unfoldable pub proxy_of : Text → Text
proxy_of [] = []
proxy_of (c ∷ key) = let rest = proxy_of key in if c == b'|' then [] else c ∷ rest

-- `f"{proxy_key}|{target}"`
abbrev pub bucket_key : Text → Text → Text
bucket_key proxy_key target = proxy_key ++ b'|' ∷ target

-- `d.get(key, 0)`
abbrev pub number : Option ℕ → ℕ
number none = 0
number (some n) = n

-- `d.get(key, [])`
abbrev pub stack : Option (List Conn) → List Conn
stack none = []
stack (some st) = st

-- `d[key] = n`, and `d.pop(key, None)` instead of a 0
unfoldable pub put_positive : Text → ℕ → Dict Text ℕ → Dict Text ℕ
put_positive key n d = if ltb 0 n then put key n d else remove key d

-- `_mark_cluster_ever`
unfoldable pub mark_cluster_ever : Text → Pools → Pools
mark_cluster_ever key s =
    let ever = put key 1 s.cluster_ever in
    record s { cluster_ever = if ltb cluster_ever_max (size ever) then drop 1 ever else ever }

-- `_count_put`
unfoldable pub count_put : Text → ℕ → Pools → Pools
count_put key n s =
    let pk = proxy_of key in
    record s {
      proxy_conn_count =
          if n == 0
          then s.proxy_conn_count
          else put pk (number (lookup pk s.proxy_conn_count) + n) s.proxy_conn_count;
    }

-- `_count_take`
unfoldable pub count_take : Text → ℕ → Pools → Pools
unfolding put_positive
count_take key n s =
    let pk = proxy_of key in
    record s {
      proxy_conn_count =
          if n == 0
          then s.proxy_conn_count
          else put_positive pk (number (lookup pk s.proxy_conn_count) - n) s.proxy_conn_count;
    }

-- `_index_target_key`
unfoldable pub index_target_key : Text → Pools → Pools
index_target_key key s = record s {
  target_keys_by_proxy = elim (lookup (proxy_of key) s.target_keys_by_proxy) [
    | none ↦ put (proxy_of key) (key ∷ []) s.target_keys_by_proxy
    | some ks ↦ put (proxy_of key) (set_add key ks) s.target_keys_by_proxy
  ];
}

abbrev put_or_drop : Text → List Text → Dict Text (List Text) → Dict Text (List Text)
put_or_drop pk [] d = remove pk d
put_or_drop pk (k ∷ ks) d = put pk (k ∷ ks) d

-- `_unindex_target_key`
unfoldable pub unindex : Text → Dict Text (List Text) → Dict Text (List Text)
unindex key d = elim (lookup (proxy_of key) d) [
  | none ↦ d
  | some ks ↦ put_or_drop (proxy_of key) (set_discard key ks) d
]

-- `_total_idle`
unfoldable pub total_idle : Pools → ℕ
total_idle s = total length s.conn_pool + total length s.target_pool

-- `_budget_left()` and `_budget_left(proxy_key)`
unfoldable pub global_room : Config → Pools → ℕ
unfolding total_idle
global_room cfg s = (cfg.total_limit + s.ended) - (total_idle s + s.begun)

unfoldable pub budget_left : Config → Text → Pools → ℕ
unfolding global_room
budget_left cfg pk s =
    min (global_room cfg s) (
      cfg.per_proxy - (number (lookup pk s.proxy_conn_count) + number (lookup pk s.creates_by_key)))

abbrev begin_bucket : Option Text → Dict Text ℕ → Dict Text ℕ
begin_bucket none d = d
begin_bucket (some b) d = put b (number (lookup b d) + 1) d

abbrev end_bucket : Option Text → Dict Text ℕ → Dict Text ℕ
end_bucket none d = d
end_bucket (some b) d = put_positive b (number (lookup b d) - 1) d

-- `_begin_create`
unfoldable pub begin_create : Text → Option Text → Pools → Pools
begin_create pk bucket s = record s {
  begun = s.begun + 1;
  creates_by_key = put pk (number (lookup pk s.creates_by_key) + 1) s.creates_by_key;
  creates_by_bucket = begin_bucket bucket s.creates_by_bucket;
}

-- `_end_create`
unfoldable pub end_create : Text → Option Text → Pools → Pools
unfolding put_positive
end_create pk bucket s = record s {
  ended = s.ended + 1;
  creates_by_key = put_positive pk (number (lookup pk s.creates_by_key) - 1) s.creates_by_key;
  creates_by_bucket = end_bucket bucket s.creates_by_bucket;
}
