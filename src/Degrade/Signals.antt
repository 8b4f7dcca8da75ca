-- ===== src/Degrade/Signals.antt =====
-- How much evidence it takes to degrade a proxy.
use auto_squid.Degrade.{
  Thresholds, Average, Outcomes, Readings, compared, is_failing, is_slower, is_weak,
  single_send_degraded,
}
use auto_squid.Base.{ℕ, ◌<◌, ◌≡◌, refl, false, Option, none, some, arith, nat_eq, text_eq}

abbrev pub observed : Option Average → ℕ
observed none = 0
observed (some q) = q.obs

abbrev pub attempts : Option Outcomes → ℕ
attempts none = 0
attempts (some m) = m.total

is_slower_few :
    (c : Thresholds) (q : Option Average) (ref : Option ℕ)
    → observed q < 2
    → is_slower c q ref ≡ false
unfolding is_slower
is_slower_few c none ref few = refl
is_slower_few c (some q) none few = refl
is_slower_few c (some q) (some base) few = ground (arith, few)

is_weak_few : (c : Thresholds) (m : Option Outcomes) → attempts m < 4 → is_weak c m ≡ false
unfolding is_weak
is_weak_few c none few = refl
is_weak_few c (some m) few = ground (arith, few)

-- A proxy of which little is known is not degraded and not counted, whatever was measured: with fewer
-- failures in a row than the threshold, fewer than two observations of the average and fewer than
-- four attempts in the domain.
pub single_send_degraded_few :
    (c : Thresholds) (r : Readings) (ref : Option ℕ) (n : ℕ)
    → r.consec_fail < c.fail
    → observed (compared r) < 2
    → attempts r.outcomes < 4
    → single_send_degraded c r ref n ≡ (false, n)
unfolding single_send_degraded is_failing
single_send_degraded_few c r ref n calm few rare =
    ground (arith, calm, is_slower_few c (compared r) ref few, is_weak_few c r.outcomes rare)
