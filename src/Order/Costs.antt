-- ===== src/Order/Costs.antt =====
-- The costs of the candidates (`_cost_raw_inputs`, `_cost_details` and `_cost_scores` of
-- auto_squid/selector.py). The three inputs of a candidate are brought to the range from 0 to one
-- million; rates are in millionths, and a cost is in millionths of the unit of the weights. What the
-- metrics hold about a proxy is a reading.
use auto_squid.Selector.{Quality}
use auto_squid.Order.{Settings, Sources, load_mult}
use auto_squid.Base.{
  ℕ, ◌+◌, ◌-◌, ◌*◌, ◌/◌, min, max, Bool, true, false, Option, none, some, List, [], ◌∷◌, ltb, leb,
  if◌then◌else◌, nat_eq, Text, text_eq,
}
use auto_squid.Dict.{lookup}

pub record Weights : Type 0 where
  pub latency : ℕ
  pub success_rate : ℕ
  pub throughput : ℕ
  pub by_p99 : Bool
  pub min_samples : ℕ
  pub min_bytes : ℕ

-- the metrics of one scope: the number of samples of the digest and its 99th percentile, the attempts,
-- and the bytes of bodies with their throughput
pub record Reading : Type 0 where
  pub samples : ℕ
  pub p99 : Option ℕ
  pub success : ℕ
  pub total : ℕ
  pub body_bytes : ℕ
  pub throughput : Option ℕ

-- the scopes that are asked, the domain's before the global one
pub record Readings : Type 0 where
  pub scopes : Option Text → Text → List Reading

abbrev pub one : ℕ
one = 1_000_000

pub record Raw : Type 0 where
  pub latency : Option ℕ
  pub failure : Option ℕ
  pub throughput : Option ℕ

abbrev pub or_next : Bool → Option ℕ → Option ℕ → Option ℕ
or_next false o rest = rest
or_next true none rest = rest
or_next true (some n) rest = some n

-- the first scope whose digest has enough samples
unfoldable pub p99_of : Weights → List Reading → Option ℕ
p99_of w [] = none
p99_of w (m ∷ ms) = let rest = p99_of w ms in or_next (leb w.min_samples m.samples) m.p99 rest

-- one less the smoothed success rate
unfoldable pub failure_of : List Reading → Option ℕ
failure_of [] = none
failure_of (m ∷ ms) =
    let rest = failure_of ms in
    if leb 1 m.total then some (one - (2 * m.success + 1) * one / (2 * (m.total + 1))) else rest

unfoldable pub throughput_of : Weights → List Reading → Option ℕ
throughput_of w [] = none
throughput_of w (m ∷ ms) =
    let rest = throughput_of w ms in or_next (leb w.min_bytes m.body_bytes) m.throughput rest

abbrev pub observed : Option Quality → Option ℕ
observed none = none
observed (some q) = if leb 1 q.obs then some q.ewma_ttfb else none

-- the entry of the domain, or else the global one
abbrev pub or_global : Option Quality → Option Quality → Option Quality
or_global none g = g
or_global (some q) g = some q

abbrev pub domain_entry : Sources → Option Text → Text → Option Quality
domain_entry s none pid = none
domain_entry s (some domain) pid = elim (lookup domain s.domain_quality) [
  | none ↦ none
  | some d ↦ lookup pid d
]

-- `_cost_raw_inputs`
unfoldable pub cost_raw_inputs : Weights → Readings → Sources → Option Text → Text → Raw
unfolding p99_of failure_of throughput_of
cost_raw_inputs w m s domain pid =
    let scopes = m.scopes domain pid in
    let average = observed (or_global (domain_entry s domain pid) (lookup pid s.quality)) in
    record {
      latency = if w.by_p99 then or_next true (p99_of w scopes) average else average;
      failure = failure_of scopes;
      throughput = throughput_of w scopes;
    }

abbrev pub widen : ℕ → Option (ℕ × ℕ) → Option (ℕ × ℕ)
widen v none = some (v, v)
widen v (some (lo, hi)) = some (min v lo, max v hi)

abbrev pub widen_by : Option ℕ → Option (ℕ × ℕ) → Option (ℕ × ℕ)
widen_by none b = b
widen_by (some v) b = widen v b

-- `_bounds`: the least and the greatest of the values that there are
unfoldable pub bounds : (Text → Option ℕ) → List Text → Option (ℕ × ℕ)
bounds f [] = none
bounds f (pid ∷ pids) = let rest = bounds f pids in widen_by (f pid) rest

-- a value between the bounds, a low one being good
unfoldable pub norm_low : Option ℕ → Option (ℕ × ℕ) → ℕ
norm_low none b = one / 2
norm_low (some v) none = one / 2
norm_low (some v) (some (lo, hi)) = if ltb lo hi then one * (v - lo) / (hi - lo) else 0

-- a value between the bounds, a high one being good
unfoldable pub norm_high : Option ℕ → Option (ℕ × ℕ) → ℕ
norm_high none b = one / 2
norm_high (some v) none = one / 2
norm_high (some v) (some (lo, hi)) = if ltb lo hi then one * (hi - v) / (hi - lo) else 0

abbrev pub times_load : ℕ → Option ℕ → Option ℕ
times_load mult none = none
times_load mult (some v) = some (v * mult)

-- the latency that the load has raised
abbrev pub effective : Settings → Weights → Readings → Sources → Option Text → Text → Option ℕ
effective cfg w m s domain pid =
    times_load (load_mult cfg s pid) (cost_raw_inputs w m s domain pid).latency

-- `_cost_scores`, the costs of `_cost_details`
unfoldable pub cost_scores :
    Settings → Weights → Readings → Sources → List Text → Option Text → Text → ℕ
unfolding cost_raw_inputs load_mult bounds norm_low norm_high
cost_scores cfg w m s cands domain pid =
    let raw = cost_raw_inputs w m s domain in
    w.latency
      * norm_low (effective cfg w m s domain pid) (bounds (effective cfg w m s domain) cands)
    + w.success_rate * norm_low (raw pid).failure (bounds (λ p. (raw p).failure) cands)
    + w.throughput * norm_high (raw pid).throughput (bounds (λ p. (raw p).throughput) cands)
