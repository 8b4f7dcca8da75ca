-- ===== src/Metrics.antt =====
-- The observation buckets of `ProxySelector` (auto_squid/selector.py): one for each proxy and one
-- for each domain and proxy. Durations are microseconds; a t-digest is kept as the list of the values
-- added to it, oldest first.
pub mod Buckets
pub mod Totals
use auto_squid.Base.{
  option_eq, pair_eq, ℕ, ◌+◌, ◌-◌, Option, none, some, List, [], ◌∷◌, ◌++◌, leb, if◌then◌else◌,
  ◌==◌, nat_eq, Text, text_eq, length, drop, set_add, set_discard, text, ◌*◌, ◌/◌, Bool, true,
  false, ltb,
}
use auto_squid.Dict.{Dict, lookup, put}

-- `_ERROR_KEYS`
pub data ErrorKind : Type 0 where
  timeout connect http_5xx http_status tls protocol cancelled other : ErrorKind

abbrev pub kind_code : ErrorKind → ℕ
kind_code timeout = 0
kind_code connect = 1
kind_code http_5xx = 2
kind_code http_status = 3
kind_code tls = 4
kind_code protocol = 5
kind_code cancelled = 6
kind_code other = 7

-- `error_type if error_type in _ERROR_KEYS else ERROR_OTHER`
unfoldable pub error_kind : Text → ErrorKind
error_kind s =
    if s == text "timeout"
    then timeout
    else if s == text "connect"
    then connect
    else if s == text "http_5xx"
    then http_5xx
    else if s == text "http_status"
    then http_status
    else if s == text "tls"
    then tls
    else if s == text "protocol"
    then protocol
    else if s == text "cancelled"
    then cancelled
    else other

-- the values of the metric dictionary
pub record Metrics : Type 0 where
  pub ttfb_samples : List ℕ
  pub ofb_samples : List ℕ
  pub outcome_samples : List ℕ
  pub success : ℕ
  pub total : ℕ
  pub errors : ErrorKind → ℕ
  pub http_versions : Dict Text ℕ
  pub cum_ttfb_digest : List ℕ
  pub cum_ofb_digest : List ℕ
  pub cum_success : ℕ
  pub cum_failure_transport : ℕ
  pub cum_failure_5xx : ℕ
  pub cum_ttfb_sum : ℕ
  pub cum_ttfb_n : ℕ
  pub cum_ofb_sum : ℕ
  pub cum_ofb_n : ℕ
  pub throughput_ewma : Option ℕ
  pub tunnel_relay_ewma : Option ℕ
  pub body_bytes : ℕ
  pub total_bytes : ℕ
  pub transfer_time : ℕ

-- what `_ensure_metrics` makes of an empty bucket
abbrev pub new_metrics : Metrics
new_metrics = record {
  ttfb_samples = [];
  ofb_samples = [];
  outcome_samples = [];
  success = 0;
  total = 0;
  errors = λ k. 0;
  http_versions = [];
  cum_ttfb_digest = [];
  cum_ofb_digest = [];
  cum_success = 0;
  cum_failure_transport = 0;
  cum_failure_5xx = 0;
  cum_ttfb_sum = 0;
  cum_ttfb_n = 0;
  cum_ofb_sum = 0;
  cum_ofb_n = 0;
  throughput_ewma = none;
  tunnel_relay_ewma = none;
  body_bytes = 0;
  total_bytes = 0;
  transfer_time = 0;
}

-- `_OBS_WINDOW`
abbrev pub obs_window : ℕ
obs_window = 256

-- `_append_sample` on a deque that keeps the last `_OBS_WINDOW` values
unfoldable pub append_sample : List ℕ → ℕ → List ℕ
append_sample xs v = let ys = xs ++ v ∷ [] in drop (length ys - obs_window) ys

unfoldable pub bump_error : ErrorKind → (ErrorKind → ℕ) → ErrorKind → ℕ
bump_error k f j = if kind_code k == kind_code j then f j + 1 else f j

-- one scope of `record_ttfb`
unfoldable pub observe_ttfb : ℕ → Metrics → Metrics
unfolding append_sample
observe_ttfb ttfb m = record m {
  success = m.success + 1;
  total = m.total + 1;
  ttfb_samples = append_sample m.ttfb_samples ttfb;
  outcome_samples = append_sample m.outcome_samples 1;
  cum_success = m.cum_success + 1;
  cum_ttfb_sum = m.cum_ttfb_sum + ttfb;
  cum_ttfb_n = m.cum_ttfb_n + 1;
  cum_ttfb_digest = m.cum_ttfb_digest ++ ttfb ∷ [];
}

-- one scope of `record_origin_first_byte`
unfoldable pub observe_ofb : ℕ → Metrics → Metrics
unfolding append_sample
observe_ofb ofb m = record m {
  ofb_samples = append_sample m.ofb_samples ofb;
  cum_ofb_sum = m.cum_ofb_sum + ofb;
  cum_ofb_n = m.cum_ofb_n + 1;
  cum_ofb_digest = m.cum_ofb_digest ++ ofb ∷ [];
}

-- one scope of `record_failure`
unfoldable pub observe_failure : ErrorKind → Metrics → Metrics
unfolding append_sample bump_error
observe_failure kind m = record m {
  total = m.total + 1;
  errors = bump_error kind m.errors;
  outcome_samples = append_sample m.outcome_samples 0;
  cum_failure_transport = m.cum_failure_transport + 1;
}

-- a trailing 1 becomes 0
unfoldable pub clear_last : List ℕ → List ℕ
clear_last [] = []
clear_last (x ∷ []) = (if x == 1 then 0 else x) ∷ []
clear_last (x ∷ y ∷ xs) = x ∷ clear_last (y ∷ xs)

-- one scope of `record_http_error`
unfoldable pub observe_5xx : Metrics → Metrics
unfolding bump_error clear_last
observe_5xx m = record m {
  errors = bump_error http_5xx m.errors;
  cum_failure_5xx = m.cum_failure_5xx + 1;
  cum_success = m.cum_success - 1;
  outcome_samples = clear_last m.outcome_samples;
}

-- one scope of `record_protocol`
unfoldable pub observe_protocol : Text → Metrics → Metrics
observe_protocol v m = record m {
  http_versions =
      put v (elim (lookup v m.http_versions) [ none ↦ 0 | some n ↦ n ] + 1) m.http_versions;
}

-- bytes in a second, on the time after the first byte if there is any; the code divides by the size of
-- a mebibyte too
abbrev pub rate : ℕ → ℕ → ℕ → ℕ
rate body_bytes body_duration body_ttfb =
    let transfer = body_duration - body_ttfb in
    body_bytes * 1_000_000 / (if ltb 0 transfer then transfer else body_duration)

abbrev pub blended : Option ℕ → ℕ → ℕ
blended none sample = sample
blended (some old) sample = (7 * old + 3 * sample) / 10

-- the average of tunnels, or that of bodies
abbrev pub sampled : Bool → ℕ → ℕ → Metrics → Metrics
sampled true sample body_bytes m = record m {
  tunnel_relay_ewma = some (blended m.tunnel_relay_ewma sample);
}
sampled false sample body_bytes m = record m {
  throughput_ewma = some (blended m.throughput_ewma sample);
  body_bytes = m.body_bytes + body_bytes;
}

abbrev pub add_totals : ℕ → ℕ → Metrics → Metrics
add_totals body_bytes body_duration m = record m {
  total_bytes = m.total_bytes + body_bytes;
  transfer_time = m.transfer_time + body_duration;
}

-- one scope of `record_complete`
unfoldable pub observe_complete : Bool → ℕ → ℕ → ℕ → Metrics → Metrics
observe_complete tunnel body_bytes body_duration body_ttfb m =
    if body_duration == 0
    then m
    else add_totals body_bytes body_duration (
        if body_bytes == 0
        then m
        else sampled tunnel (rate body_bytes body_duration body_ttfb) body_bytes m)

-- the tables, their version and the keys that wait to be written out; `none` stands for the global
-- bucket of a proxy
pub record Store : Type 0 where
  pub proxy_metrics : Dict Text Metrics
  pub domain_metrics : Dict Text (Dict Text Metrics)
  pub version : ℕ
  pub dirty_keys : List (Option Text × Text)
  pub delete_keys : List (Option Text × Text)
  pub full_rewrite : Bool
  pub stale_conn_retries : ℕ

-- `setdefault`
unfoldable pub ensure : Text → Dict Text Metrics → Dict Text Metrics
ensure pid t = elim (lookup pid t) [ none ↦ put pid new_metrics t | some _ ↦ t ]

abbrev pub or_empty : Option (Dict Text Metrics) → Dict Text Metrics
or_empty none = []
or_empty (some t) = t

-- `_metrics_for`, up to the bucket that it returns
unfoldable pub metrics_for : Text → Option Text → Store → Store
unfolding ensure
metrics_for pid (some domain) s = record s {
  domain_metrics =
      put domain (ensure pid (or_empty (lookup domain s.domain_metrics))) s.domain_metrics;
  version = s.version + 1;
  dirty_keys = set_add (some domain, pid) s.dirty_keys;
  delete_keys = set_discard (some domain, pid) s.delete_keys;
}
metrics_for pid none s = record s {
  proxy_metrics = ensure pid s.proxy_metrics;
  version = s.version + 1;
  dirty_keys = set_add (none, pid) s.dirty_keys;
  delete_keys = set_discard (none, pid) s.delete_keys;
}

abbrev pub or_new : Option Metrics → Metrics
or_new none = new_metrics
or_new (some m) = m

-- writing through the reference that `_metrics_for` returned
unfoldable pub write_bucket : (Metrics → Metrics) → Text → Option Text → Store → Store
write_bucket f pid (some domain) s =
    let per = or_empty (lookup domain s.domain_metrics) in
    record s {
      domain_metrics = put domain (put pid (f (or_new (lookup pid per))) per) s.domain_metrics;
    }
write_bucket f pid none s = record s {
  proxy_metrics = put pid (f (or_new (lookup pid s.proxy_metrics))) s.proxy_metrics;
}

-- the loop over the scopes that every `record_*` runs: the global bucket, then the domain's if it is
-- another one
unfoldable pub write_scopes : (Metrics → Metrics) → Text → Option Text → Store → Store
unfolding metrics_for write_bucket
write_scopes f pid domain s =
    let taken = metrics_for pid domain (metrics_for pid none s) in
    let written = write_bucket f pid none taken in
    elim domain [ none ↦ written | some d ↦ write_bucket f pid (some d) written ]

-- `record_origin_first_byte`
unfoldable pub record_origin_first_byte : Text → ℕ → Option Text → Store → Store
record_origin_first_byte pid ofb domain s =
    if ofb == 0 then s else write_scopes (observe_ofb ofb) pid domain s

-- `record_complete`
unfoldable pub record_complete : Bool → Text → ℕ → ℕ → ℕ → Option Text → Store → Store
record_complete tunnel pid body_bytes body_duration body_ttfb domain s =
    write_scopes (observe_complete tunnel body_bytes body_duration body_ttfb) pid domain s

-- `record_stale_conn`: no bucket is told
unfoldable pub record_stale_conn : Store → Store
record_stale_conn s = record s { stale_conn_retries = s.stale_conn_retries + 1 }

-- `consume_dirty_metric_keys`
unfoldable pub consume_dirty_metric_keys : Store → (Bool × List (Option Text × Text)) × Store
consume_dirty_metric_keys s =
    ((s.full_rewrite, s.dirty_keys), record s { dirty_keys = []; full_rewrite = false })

-- `record_http_error`
unfoldable pub record_http_error : Text → ℕ → Option Text → Store → Store
record_http_error pid status domain s =
    if leb 500 status then write_scopes observe_5xx pid domain s else s

-- `record_protocol`
unfoldable pub record_protocol : Text → Text → Option Text → Store → Store
record_protocol pid v domain s = elim v [
  | [] ↦ s
  | c ∷ cs ↦ write_scopes (observe_protocol (c ∷ cs)) pid domain s
]

abbrev sum : List ℕ → ℕ
sum [] = 0
sum (x ∷ xs) = x + sum xs

-- `global_window_success`
unfoldable pub global_window_success : Dict Text Metrics → ℕ × ℕ
global_window_success [] = (0, 0)
global_window_success ((pid, m) ∷ t) =
    let (succ, tot) = global_window_success t in
    (sum m.outcome_samples + succ, length m.outcome_samples + tot)

-- `consume_metric_delete_keys`
unfoldable pub consume_metric_delete_keys : Store → List (Option Text × Text) × Store
consume_metric_delete_keys s = (s.delete_keys, record s { delete_keys = [] })
