-- ===== src/Selector.antt =====
-- What one attempt of a proxy does to the whole `ProxySelector` (auto_squid/selector.py): the
-- attribution of a failure to the target or to the proxy, `record_failure` and `record_ttfb`. Times
-- are microseconds of the monotonic clock, read once in each call; averages are rounded down.
pub mod Attribution
pub mod Failures
pub mod Averages
use auto_squid.Circuit
use auto_squid.Circuit.{Circuits, in_backoff, charge_failure, or_fresh}
use auto_squid.Concurrency
use auto_squid.Concurrency.{Conc, conc_observe_failure, conc_observe_success}
use auto_squid.Metrics.{
  ErrorKind, http_status, other, error_kind, Store, write_scopes, observe_failure, observe_ttfb,
}
use auto_squid.Base.{
  ℕ, ◌+◌, ◌*◌, ◌/◌, max, Bool, true, false, not, ◌||◌, Option, none, some, [], ◌∷◌, ltb, leb,
  if◌then◌else◌, ◌==◌, nat_eq, Text, text_eq, pair_eq, option_eq,
}
use auto_squid.Dict.Shrink.{shrink}
use auto_squid.Dict.{Dict, size, keep, lookup, put}

-- `_TARGET_DEAD_WINDOW`, `_TARGET_DEAD_MIN_PROXIES` and `_TARGET_FAIL_MAX_DOMAINS`
abbrev pub dead_window : ℕ
dead_window = 10_000_000

abbrev pub min_proxies : ℕ
min_proxies = 3

abbrev pub max_domains : ℕ
max_domains = 4096

-- an entry of the quality tables; `ts` is 0 where the key is missing
pub record Quality : Type 0 where
  pub ewma_ttfb : ℕ
  pub obs : ℕ
  pub ts : ℕ

pub record Selector : Type 0 where
  pub circuits : Circuits
  pub concs : Dict Text Conc
  pub domain_fail : Dict Text (Dict Text ℕ)
  pub quality : Dict Text Quality
  pub domain_quality : Dict Text (Dict Text Quality)
  pub metrics : Store
  pub failures_target_level : ℕ

-- the largest value of a table, 0 if it is empty
unfoldable pub latest : Dict Text ℕ → ℕ
latest [] = 0
latest ((p, t) ∷ d) = max t (latest d)

unfoldable pub latest_ts : Dict Text Quality → ℕ
latest_ts [] = 0
latest_ts ((p, q) ∷ d) = max q.ts (latest_ts d)

-- `last_domain_success_ts`
unfoldable pub last_domain_success_ts : Text → Dict Text (Dict Text Quality) → ℕ
unfolding latest_ts
last_domain_success_ts domain t = elim (lookup domain t) [ none ↦ 0 | some d ↦ latest_ts d ]

abbrev pub or_none : Option (Dict Text ℕ) → Dict Text ℕ
or_none none = []
or_none (some d) = d

-- a failure that is still inside the window
unfoldable pub is_recent : ℕ → Text → ℕ → Bool
is_recent now p t = not (ltb (t + dead_window) now)

-- `_prune_domain_fail`
unfoldable pub prune_domain_fail : ℕ → Dict Text (Dict Text ℕ) → Dict Text (Dict Text ℕ)
unfolding latest
prune_domain_fail now t =
    shrink max_domains latest
      (keep (λ _ d. not (size d == 0 || leb (latest d + dead_window) now)) t)

-- the failures of a domain in the window, with the new one
unfoldable pub failed_at : Text → Text → ℕ → Dict Text (Dict Text ℕ) → Dict Text ℕ
unfolding is_recent
failed_at pid domain now t = put pid now (keep (is_recent now) (or_none (lookup domain t)))

-- `_is_target_level_failure`: its answer and the table with the new failure, given the
-- observations of the domains
unfoldable pub is_target_level_failure :
    Text
    → Text
    → ℕ
    → Dict Text (Dict Text Quality)
    → Dict Text (Dict Text ℕ)
    → Bool × Dict Text (Dict Text ℕ)
unfolding failed_at prune_domain_fail last_domain_success_ts
is_target_level_failure pid domain now q t =
    let noted = put domain (failed_at pid domain now t) t in
    if ltb (size (failed_at pid domain now t)) min_proxies
    then (false, noted)
    else if ltb now (last_domain_success_ts domain q + dead_window)
    then (false, noted)
    else if ltb max_domains (size noted)
    then (true, prune_domain_fail now noted)
    else (true, noted)

unfoldable pub is_http_status : ErrorKind → Bool
is_http_status http_status = true
is_http_status k = false

abbrev pub failure_kind : Option Text → ErrorKind
failure_kind none = other
failure_kind (some t) = error_kind t

-- the first part of `record_failure`: whether the failure bypasses the circuit
unfoldable pub attribute : Text → ErrorKind → Option Text → ℕ → Selector → Bool × Selector
unfolding is_target_level_failure is_http_status
attribute pid kind domain now s = if is_http_status kind then (true, s) else elim domain [
  | none ↦ (false, s)
  | some d ↦
      if d == []
      then (false, s)
      else (let (dead, table) = is_target_level_failure pid d now s.domain_quality s.domain_fail in
          (
            dead,
            record s {
              domain_fail = table;
              failures_target_level =
                  if dead then s.failures_target_level + 1 else s.failures_target_level;
            },
          ))
]

-- the second part: the proxy is charged, and its concurrency limit cut unless its circuit is open
unfoldable pub charge_proxy : Circuit.Config → Concurrency.Config → Text → ℕ → Selector → Selector
charge_proxy cc kc pid now s = record s {
  circuits = charge_failure cc now pid s.circuits;
  concs =
      if in_backoff now (or_fresh (lookup pid s.circuits.table))
      then s.concs
      else conc_observe_failure kc pid s.concs;
}

-- `record_failure`
unfoldable pub record_failure :
    Circuit.Config → Concurrency.Config → Text → Option Text → Option Text → ℕ → Selector → Selector
unfolding attribute charge_proxy
record_failure cc kc pid error_type domain now s =
    let kind = failure_kind error_type in
    let (bypass, s1) = attribute pid kind domain now s in
    let s2 = record s1 { circuits = record s1.circuits { version = s1.circuits.version + 1 } } in
    let s3 = if bypass then s2 else charge_proxy cc kc pid now s2 in
    record s3 { metrics = write_scopes (observe_failure kind) pid domain s3.metrics }

-- `_apply_ewma`, `EWMA_ALPHA` being 3 / 10
unfoldable pub apply_ewma : Text → ℕ → Dict Text Quality → Quality × Dict Text Quality
apply_ewma pid ttfb t = elim (lookup pid t) [
  | none ↦ let q : Quality = record { ewma_ttfb = ttfb; obs = 1; ts = 0 } in (q, put pid q t)
  | some q ↦
      let q' = record q { ewma_ttfb = (7 * q.ewma_ttfb + 3 * ttfb) / 10; obs = q.obs + 1 } in
      (q', put pid q' t)
]

abbrev pub or_no_quality : Option (Dict Text Quality) → Dict Text Quality
or_no_quality none = []
or_no_quality (some d) = d

-- the domain's part of `record_ttfb`
unfoldable pub domain_ewma :
    Text → ℕ → Option Text → ℕ → Dict Text (Dict Text Quality) → Dict Text (Dict Text Quality)
unfolding apply_ewma
domain_ewma pid ttfb none now t = t
domain_ewma pid ttfb (some d) now t =
    if d == []
    then t
    else (let (q, per) = apply_ewma pid ttfb (or_no_quality (lookup d t)) in
        put d (put pid (record q { ts = now }) per) t)

-- `record_ttfb`
unfoldable pub record_ttfb : Concurrency.Config → Text → ℕ → Option Text → ℕ → Selector → Selector
unfolding apply_ewma domain_ewma
record_ttfb kc pid ttfb domain now s = record s {
  quality = (apply_ewma pid ttfb s.quality).1;
  concs = conc_observe_success kc pid s.concs;
  domain_quality = domain_ewma pid ttfb domain now s.domain_quality;
  metrics = write_scopes (observe_ttfb ttfb) pid domain s.metrics;
}
