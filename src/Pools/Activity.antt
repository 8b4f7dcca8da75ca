-- ===== src/Pools/Activity.antt =====
-- Whether the pools are idle: `_record_request_activity` and `_conn_pool_idle`.
use auto_squid.Pools.{Config, Pools}
use auto_squid.Base.{
  ℕ, ◌+◌, ◌-◌, Bool, false, not, ◌||◌, List, [], ◌∷◌, ◌++◌, ltb, leb, if◌then◌else◌, ◌==◌, nat_eq,
  text_eq, pair_eq, option_eq, length, drop,
}

-- `deque(maxlen=1024)`
abbrev pub max_timestamps : ℕ
max_timestamps = 1024

-- the timestamps, the oldest first, less those that are out of the window
unfoldable pub recent : ℕ → ℕ → List ℕ → List ℕ
recent now w [] = []
recent now w (t ∷ ts) = let rest = recent now w ts in if ltb (t + w) now then rest else t ∷ ts

-- `_conn_pool_idle`
unfoldable pub conn_pool_idle : Config → ℕ → Pools → Bool
conn_pool_idle cfg now s =
    if not cfg.enabled || cfg.pause == 0 then false else leb (s.last_activity + cfg.pause) now

-- the timestamps in the window after a request
abbrev pub window : Config → ℕ → Pools → List ℕ
window cfg now s =
    let queued = s.timestamps ++ now ∷ [] in
    recent now cfg.activity_window (drop (length queued - max_timestamps) queued)

-- `_record_request_activity`
unfoldable pub record_request_activity : Config → ℕ → Pools → Pools
unfolding recent
record_request_activity cfg now s =
    if cfg.activity_window == 0 || leb cfg.min_requests 1
    then record s { last_activity = now }
    else if ltb (length (window cfg now s)) cfg.min_requests
    then record s { timestamps = window cfg now s }
    else record s { timestamps = window cfg now s; last_activity = now }
