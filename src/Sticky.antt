-- ===== src/Sticky.antt =====
-- The session stickiness table (auto_squid/sticky.py): which proxy last won for a client and a
-- domain. Times are microseconds of the monotonic clock, read once in each call; `updated_at` is the
-- text of the wall clock. Both writers store the monotonic time, so an entry always has it and the
-- branches that parse `updated_at` are never taken. The router's and selector's parts that a call
-- consults are the record `Router` of the answers they give during that call.
pub mod Order
pub mod Sweep
pub mod Validity
pub mod Room
pub mod Histories
pub mod Reads
use auto_squid.Base.{
  ℕ, ◌+◌, ◌*◌, max, Bool, true, false, not, ◌&&◌, ◌||◌, Option, none, some, List, [], ◌∷◌, ◌++◌,
  ltb, leb, if◌then◌else◌, ◌==◌, nat_eq, Text, text_eq, pair_eq, option_eq, set_add, text,
}
use auto_squid.Dict.{Dict, size, keys, keep, lookup, put, remove, move_to_end, has_key}

pub record Entry : Type 0 where
  pub proxy_id : Text
  pub updated_at : Text
  pub updated_mono : ℕ
  pub hits : ℕ
  pub ref_ewma : Option ℕ

pub record Sticky : Type 0 where
  pub enabled : Bool
  pub ttl : ℕ
  pub recheck_hits : ℕ
  pub max_entries : ℕ
  pub enable_local_racing : Bool
  pub probe_interval : ℕ
  pub probe_last : Dict Text ℕ
  pub cache : Dict Text Entry
  pub last_prune : ℕ
  pub evictions : ℕ
  pub slow_probes : ℕ
  pub degraded : List Text

-- what the proxy store, the selector and the policies of the router answer; the degrade ratio is the
-- fraction `ratio_num / ratio_den`
pub record Router : Type 0 where
  pub usable : Text → Bool
  pub is_circuit_open : Text → Bool
  pub has_policies : Bool
  pub policy_allows_sticky : Text → Text → Bool
  pub single_send_degraded : Text → Text → Option ℕ → Bool
  pub best_domain_ewma : Text → Text → Option (Text × ℕ)
  pub domain_ewma : Text → Text → Option ℕ
  pub worse_than_best : Text → Text → Bool
  pub ref_ewma_for : Text → Text → Option ℕ
  pub ratio_num : ℕ
  pub ratio_den : ℕ
  pub slack : ℕ
  pub now_utc : Text

abbrev pub local_id : Text
local_id = text "local"

-- `_sticky_key`
abbrev pub sticky_key : Text → Text → Text
sticky_key ip domain = ip ++ b'|' ∷ domain

-- `_evict_sticky_key`
unfoldable pub evict_sticky_key : Text → Sticky → Sticky
evict_sticky_key key s = elim (lookup key s.cache) [
  | none ↦ s
  | some _ ↦ record s { cache = remove key s.cache; evictions = s.evictions + 1 }
]

-- the TTL test of an entry
unfoldable pub expired : ℕ → Sticky → Entry → Bool
expired now s e = leb (e.updated_mono + s.ttl) now

-- `_sticky_recheck_due`
unfoldable pub sticky_recheck_due : Text → Text → ℕ → Sticky → Bool
unfolding expired
sticky_recheck_due ip domain now s =
    if not s.enabled || s.recheck_hits == 0
    then false
    else elim (lookup (sticky_key ip domain) s.cache) [
      | none ↦ false
      | some e ↦ if ltb e.hits s.recheck_hits then false else not (expired now s e)
    ]

-- `sticky_probe_due`
unfoldable pub sticky_probe_due : Text → Text → ℕ → Sticky → Bool
sticky_probe_due ip domain now s =
    if s.probe_interval == 0 then false else elim (lookup (sticky_key ip domain) s.probe_last) [
      | none ↦ true
      | some last ↦ leb (last + s.probe_interval) now
    ]

-- `_sticky_degrade_due`: its answer, and the set of degraded proxies with the new one
unfoldable pub sticky_degrade_due : Router → Text → Text → Sticky → Bool × Sticky
sticky_degrade_due r ip domain s =
    if not s.enabled then (false, s) else elim (lookup (sticky_key ip domain) s.cache) [
      | none ↦ (false, s)
      | some e ↦
          if e.proxy_id == local_id
          then (false, s)
          else if not (r.single_send_degraded domain e.proxy_id e.ref_ewma)
          then (false, s)
          else (true, record s { degraded = set_add e.proxy_id s.degraded })
    ]

-- `_sticky_slow_probe_due`
unfoldable pub sticky_slow_probe_due : Router → Text → Text → Bool
sticky_slow_probe_due r domain pid =
    if r.ratio_num == 0 then false else elim (r.best_domain_ewma domain pid) [
      | none ↦ false
      | some (_, best) ↦ elim (r.domain_ewma domain pid) [
        | none ↦ false
        | some cur ↦ ltb (best * r.ratio_num) (cur * r.ratio_den) && ltb (best + r.slack) cur
      ]
    ]

-- the last tests of `_get_sticky_proxy`, which leave the entry where it is
unfoldable pub judge_quality : Router → Text → Text → ℕ → Text → Sticky → Option Text × Sticky
unfolding sticky_recheck_due sticky_slow_probe_due sticky_degrade_due
judge_quality r ip domain now pid s =
    if sticky_recheck_due ip domain now s
    then (none, s)
    else if not (pid == local_id) && sticky_slow_probe_due r domain pid
    then (none, record s { degraded = set_add pid s.degraded; slow_probes = s.slow_probes + 1 })
    else if pid == local_id
    then (some pid, s)
    else (let d = sticky_degrade_due r ip domain s in if d.0 then (none, d.1) else (some pid, s))

-- the tests of `_get_sticky_proxy` that evict: the proxy, the TTL, the circuit and the policies
unfoldable pub is_unfit : Router → Text → ℕ → Entry → Sticky → Bool
unfolding expired
is_unfit r domain now e s =
    (if e.proxy_id == local_id then not s.enable_local_racing else not (r.usable e.proxy_id))
    || expired now s e
    || not (e.proxy_id == local_id) && r.is_circuit_open e.proxy_id
    || r.has_policies && not (r.policy_allows_sticky domain e.proxy_id)

-- `_get_sticky_proxy`
unfoldable pub get_sticky_proxy : Router → Text → Text → ℕ → Sticky → Option Text × Sticky
unfolding is_unfit judge_quality
get_sticky_proxy r ip domain now s =
    if not s.enabled then (none, s) else elim (lookup (sticky_key ip domain) s.cache) [
      | none ↦ (none, s)
      | some e ↦
          if is_unfit r domain now e s
          then (none, evict_sticky_key (sticky_key ip domain) s)
          else judge_quality r ip domain now e.proxy_id s
    ]

-- `_evict_oldest_sticky`
unfoldable pub evict_oldest_sticky : Sticky → Sticky
evict_oldest_sticky s = elim s.cache [ [] ↦ s | (oldest, _) ∷ _ ↦ evict_sticky_key oldest s ]

-- the entries that `_prune_sticky` sweeps
unfoldable pub is_stale : Router → ℕ → Sticky → Entry → Bool
unfolding expired
is_stale r now s e =
    if e.proxy_id == local_id
    then not s.enable_local_racing
    else not (r.usable e.proxy_id) || expired now s e

unfoldable pub evict_each : List Text → Sticky → Sticky
evict_each [] s = s
evict_each (k ∷ ks) s = evict_each ks (evict_sticky_key k s)

-- the throttle times that are kept: those of the recently probed sessions
unfoldable pub sweep_probes : ℕ → Sticky → Dict Text ℕ
sweep_probes now s =
    if s.probe_interval == 0
    then s.probe_last
    else keep (λ _ last. not (ltb (last + max s.ttl (8 * s.probe_interval)) now)) s.probe_last

-- `_prune_sticky`
unfoldable pub prune_sticky : Router → ℕ → Sticky → Sticky
unfolding is_stale evict_each sweep_probes
prune_sticky r now s =
    evict_each (keys (keep (λ _ e. is_stale r now s e) s.cache))
      (record s { last_prune = now; probe_last = sweep_probes now s })

-- `_prune_sticky_throttled`
unfoldable pub prune_sticky_throttled : Router → ℕ → Sticky → Sticky
prune_sticky_throttled r now s =
    if ltb now (s.last_prune + 1_000_000) then s else prune_sticky r now s

-- the capacity guard of `_record_sticky`
unfoldable pub make_room : Router → Text → ℕ → Sticky → Sticky
unfolding prune_sticky_throttled evict_oldest_sticky
make_room r key now s =
    if not (has_key key s.cache) && leb s.max_entries (size s.cache)
    then (let s' = prune_sticky_throttled r now s in
        if leb s'.max_entries (size s'.cache) then evict_oldest_sticky s' else s')
    else s

-- `_record_sticky`
unfoldable pub record_sticky : Router → Text → Text → Text → ℕ → Sticky → Sticky
unfolding make_room
record_sticky r ip domain pid now s =
    if not s.enabled
    then s
    else if r.worse_than_best domain pid
    then s
    else (let key = sticky_key ip domain in
        let s' = make_room r key now s in
        let e : Entry = record {
          proxy_id = pid;
          updated_at = r.now_utc;
          updated_mono = now;
          hits = 0;
          ref_ewma = r.ref_ewma_for domain pid;
        } in
        record s' { cache = move_to_end key (put key e s'.cache) })

-- `_bump_sticky`
unfoldable pub bump_sticky : Router → Text → Text → Text → ℕ → Sticky → Sticky
unfolding record_sticky
bump_sticky r ip domain pid now s = elim (lookup (sticky_key ip domain) s.cache) [
  | none ↦ record_sticky r ip domain pid now s
  | some e ↦
      let key = sticky_key ip domain in
      let e' = record e {
        proxy_id = pid;
        updated_at = r.now_utc;
        updated_mono = now;
        hits = e.hits + 1;
      } in
      record s { cache = move_to_end key (put key e' s.cache) }
]

-- `_evict_sticky`
unfoldable pub evict_sticky : Text → Text → Sticky → Sticky
evict_sticky ip domain s = evict_sticky_key (sticky_key ip domain) s
