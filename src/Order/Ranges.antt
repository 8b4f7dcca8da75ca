-- ===== src/Order/Ranges.antt =====
-- Costs stay in a range and follow the latency.
use auto_squid.Order.{Settings, Sources}
use auto_squid.Order.Costs.{
  Weights, Readings, one, widen_by, bounds, norm_low, norm_high, effective, cost_raw_inputs,
  cost_scores,
}
use auto_squid.Order.Sorting.{times}
use native.Mathlib.Nat.{mul-le-mul_left, le-div_iff_mul-le}
use auto_squid.Base.{
  ℕ, ◌+◌, ◌-◌, ◌*◌, ◌≤◌, ◌<◌, ◌≡◌, ap, inl, inr, Option, none, some, List, [], ◌∷◌, arith, ltb,
  Bool-cases, if_elim, subst, ◌==◌, nat_eq, Text, text_eq, pair_eq, option_eq, scale_le, ◌/◌,
}

-- a value that the bounds cover
abbrev Covers : Option (ℕ × ℕ) → Option ℕ → Type 0
Covers b none = Unit
Covers none (some v) = ⊥
Covers (some (lo, hi)) (some v) = (lo ≤ v) × (v ≤ hi)

norm_low-le : (o : Option ℕ) (b : Option (ℕ × ℕ)) → Covers b o → norm_low o b ≤ one
unfolding norm_low
norm_low-le none b c = omega arith
norm_low-le (some v) none c = omega arith
norm_low-le (some v) (some (lo, hi)) c =
    if_elim (λ n. n ≤ one) (ltb lo hi)
      (λ _. scale_le one (v - lo) (hi - lo) (omega (arith, c.0, c.1))) (λ _. omega arith)

norm_high-le : (o : Option ℕ) (b : Option (ℕ × ℕ)) → Covers b o → norm_high o b ≤ one
unfolding norm_high
norm_high-le none b c = omega arith
norm_high-le (some v) none c = omega arith
norm_high-le (some v) (some (lo, hi)) c =
    if_elim (λ n. n ≤ one) (ltb lo hi)
      (λ _. scale_le one (hi - v) (hi - lo) (omega (arith, c.0, c.1))) (λ _. omega arith)

widen_own : (o : Option ℕ) (b : Option (ℕ × ℕ)) → Covers (widen_by o b) o
widen_own none b = tt
widen_own (some v) none = (omega arith, omega arith)
widen_own (some v) (some (lo, hi)) = (omega arith, omega arith)

widen_other : (o u : Option ℕ) (b : Option (ℕ × ℕ)) → Covers b u → Covers (widen_by o b) u
widen_other none u b c = c
widen_other (some v) none none c = tt
widen_other (some v) (some x) none c = absurd c
widen_other (some v) none (some (lo, hi)) c = tt
widen_other (some v) (some x) (some (lo, hi)) c = (omega (arith, c.0), omega (arith, c.1))

bounds-Covers :
    (f : Text → Option ℕ) (pid : Text) (pids : List Text)
    → 0 < times pid pids
    → Covers (bounds f pids) (f pid)
unfolding bounds times
bounds-Covers f pid [] h = absurd (omega (arith, h))
bounds-Covers f pid (p ∷ pids) h = elim (Bool-cases (p == pid)) [
  | inl same ↦
      subst (λ q. Covers (widen_by (f p) (bounds f pids)) (f q)) ((text_eq.beq_iff p pid).0 same)
        (widen_own (f p) (bounds f pids))
  | inr other ↦
      widen_other (f p) (f pid) (bounds f pids)
        (bounds-Covers f pid pids (ground (arith, h, other)))
]

-- The cost of a candidate is at most the sum of the three weights.
pub cost_scores-le :
    (cfg : Settings) (w : Weights) (m : Readings) (s : Sources) (cands : List Text)
    (domain : Option Text) (pid : Text)
    → 0 < times pid cands
    → cost_scores cfg w m s cands domain pid
      ≤ w.latency * one + w.success_rate * one + w.throughput * one
unfolding cost_scores
cost_scores-le cfg w m s cands domain pid h =
    let raw = cost_raw_inputs w m s domain in
    let lat = effective cfg w m s domain in
    let a = norm_low-le (lat pid) (bounds lat cands) (bounds-Covers lat pid cands h) in
    let b =
      norm_low-le (raw pid).failure (bounds (λ p. (raw p).failure) cands)
        (bounds-Covers (λ p. (raw p).failure) pid cands h) in
    let c =
      norm_high-le (raw pid).throughput (bounds (λ p. (raw p).throughput) cands)
        (bounds-Covers (λ p. (raw p).throughput) pid cands h) in
    omega (
      arith,
      mul-le-mul_left w.latency a,
      mul-le-mul_left w.success_rate b,
      mul-le-mul_left w.throughput c,
    )

div_mono : (a b k : ℕ) → 0 < k → a ≤ b → a / k ≤ b / k
div_mono a b k pos h =
    (le-div_iff_mul-le {k = k} {x = a / k} {y = b} pos).1
      (omega (arith, (le-div_iff_mul-le {k = k} {x = a / k} {y = a} pos).0 (omega arith), h))

norm_low_mono : (x y : ℕ) (b : Option (ℕ × ℕ)) → x ≤ y → norm_low (some x) b ≤ norm_low (some y) b
unfolding norm_low
norm_low_mono x y none h = omega arith
norm_low_mono x y (some (lo, hi)) h = elim (Bool-cases (ltb lo hi)) [
  | inl less ↦ ground (
    arith,
    less,
    div_mono (one * (x - lo)) (one * (y - lo)) (hi - lo) (ground (arith, less)) (omega (arith, h)),
  )
  | inr more ↦ ground (arith, more)
]

-- Of two candidates that do not differ in failures and throughput, the one with the smaller latency,
-- raised by its load, does not cost more.
pub cost_scores_mono :
    (cfg : Settings) (w : Weights) (m : Readings) (s : Sources) (cands : List Text)
    (domain : Option Text) (p q : Text) (x y : ℕ)
    → (cost_raw_inputs w m s domain p).failure ≡ (cost_raw_inputs w m s domain q).failure
    → (cost_raw_inputs w m s domain p).throughput ≡ (cost_raw_inputs w m s domain q).throughput
    → effective cfg w m s domain p ≡ some x
    → effective cfg w m s domain q ≡ some y
    → x ≤ y
    → cost_scores cfg w m s cands domain p ≤ cost_scores cfg w m s cands domain q
unfolding cost_scores
cost_scores_mono cfg w m s cands domain p q x y fail thru lp lq le =
    let raw = cost_raw_inputs w m s domain in
    let b = bounds (effective cfg w m s domain) cands in
    omega (
      arith,
      mul-le-mul_left w.latency (norm_low_mono x y b le),
      ap (λ o. w.latency * norm_low o b) lp,
      ap (λ o. w.latency * norm_low o b) lq,
      ap (λ o. w.success_rate * norm_low o (bounds (λ r. (raw r).failure) cands)) fail,
      ap (λ o. w.throughput * norm_high o (bounds (λ r. (raw r).throughput) cands)) thru,
    )
