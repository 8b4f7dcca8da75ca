-- ===== src/Degrade.antt =====
-- Whether a pinned proxy has become too bad to be sent to alone (`_single_send_degraded` of
-- auto_squid/router.py). What the selector knows of the proxy at the call is the record `Readings`;
-- the 99th percentiles are read off it as the code reads them from `_percentiles`. Durations are
-- microseconds, the two rates fractions, and 0 turns a signal off.
pub mod Signals
use auto_squid.Base.{
  ℕ, ◌+◌, ◌*◌, max, Bool, true, false, not, ◌&&◌, ◌||◌, Option, none, some, ltb, leb, if◌then◌else◌,
  ◌==◌, nat_eq, text_eq, pair_eq, option_eq,
}

pub record Thresholds : Type 0 where
  pub fail : ℕ
  pub ratio_num : ℕ
  pub ratio_den : ℕ
  pub slack : ℕ
  pub success_num : ℕ
  pub success_den : ℕ
  pub p99 : ℕ
  pub min_throughput : ℕ

-- an entry of a quality table
pub record Average : Type 0 where
  pub ewma : Option ℕ
  pub obs : ℕ

-- the metrics of the proxy in the domain
pub record Outcomes : Type 0 where
  pub total : ℕ
  pub success : ℕ
  pub ttfb_p99 : Option ℕ
  pub ofb_p99 : Option ℕ
  pub throughput : Option ℕ

pub record Readings : Type 0 where
  pub consec_fail : ℕ
  pub in_domain : Option Average
  pub anywhere : Option Average
  pub outcomes : Option Outcomes

abbrev pub or_zero : Option ℕ → ℕ
or_zero none = 0
or_zero (some n) = n

-- the first signal: failures in a row
unfoldable pub is_failing : Thresholds → Readings → Bool
is_failing c r = not (c.fail == 0) && leb c.fail r.consec_fail

-- the average that is compared: the domain's if there is one
abbrev pub compared : Readings → Option Average
compared r = elim r.in_domain [ none ↦ r.anywhere | some q ↦ some q ]

-- the second signal: the average against the one at the time of pinning
unfoldable pub is_slower : Thresholds → Option Average → Option ℕ → Bool
is_slower c none ref = false
is_slower c (some q) none = false
is_slower c (some q) (some base) = not (c.ratio_num == 0) && not (base == 0) && elim q.ewma [
  | none ↦ false
  | some cur ↦
      leb 2 q.obs && leb (base * c.ratio_num) (cur * c.ratio_den) && ltb (base + c.slack) cur
]

-- the third signal: success rate, percentiles and throughput in the domain
unfoldable pub is_weak : Thresholds → Option Outcomes → Bool
is_weak c none = false
is_weak c (some m) =
    not (c.success_num == 0)
      && leb 8 m.total
      && ltb (m.success * c.success_den) (c.success_num * m.total)
    || not (c.p99 == 0) && leb 4 m.total && ltb c.p99 (max (or_zero m.ttfb_p99) (or_zero m.ofb_p99))
    || not (c.min_throughput == 0)
      && leb 4 m.total
      && elim m.throughput [ none ↦ false | some t ↦ ltb t c.min_throughput ]

-- `_single_send_degraded`: its answer and the counter `single_send_degrades`
unfoldable pub single_send_degraded : Thresholds → Readings → Option ℕ → ℕ → Bool × ℕ
unfolding is_failing is_slower is_weak
single_send_degraded c r ref n =
    if is_failing c r
    then (true, n + 1)
    else if is_slower c (compared r) ref
    then (true, n + 1)
    else if is_weak c r.outcomes
    then (true, n + 1)
    else (false, n)
