-- ===== src/Tuner/Trials.antt =====
-- What the rotation over the weights tries.
use auto_squid.Tuner.{
  Weights, Key, latency_key, success_key, throughput_key, lowest, highest, weight, set_weight,
  Config, key_at, perturbed, rotate, in_bounds,
}
use auto_squid.Base.{
  ℕ, zero, suc, ◌+◌, ◌-◌, ◌/◌, ◌%◌, ◌≤◌, ◌<◌, ◌≡◌, ◌||◌, arith, ltb, if_elim, nat_eq, text_eq,
  scale_le, refl, true, false, Bool, ap, subst, ◌*◌, if◌then◌else◌, ◌==◌, pair_eq, option_eq,
}

-- one step up in the first three turns of six, one down in the others
abbrev pub stepped : Config → ℕ → ℕ → ℕ
stepped cfg i v =
    if ltb (i % 6) 3
    then v * (cfg.step_den + cfg.step_num) / cfg.step_den
    else v * (cfg.step_den - cfg.step_num) / cfg.step_den

up_turn : (i : ℕ) → (i / 3 % 2 == 0) ≡ ltb (i % 6) 3
up_turn i = ground arith

perturbed-stepped : (cfg : Config) (i v : ℕ) → perturbed cfg i v ≡ stepped cfg i v
unfolding perturbed
perturbed-stepped cfg i v =
    ap
      (λ (b : Bool).
        if b
        then v * (cfg.step_den + cfg.step_num) / cfg.step_den
        else v * (cfg.step_den - cfg.step_num) / cfg.step_den)
      (up_turn i)

-- the perturbation of turn `i`
abbrev pub tried : Config → ℕ → Weights → ℕ
tried cfg i w = perturbed cfg i (weight (key_at (i % 3)) w)

-- the rotation stopped after a turn whose perturbation is in bounds, and tries that one
pub record IsFound (cfg : Config) (w : Weights) (r : ℕ × Weights) : Type 0 where
  pub turn : ℕ
  pub index : r.0 ≡ turn + 1
  pub low : lowest (key_at (turn % 3)) ≤ stepped cfg turn (weight (key_at (turn % 3)) w)
  pub high : stepped cfg turn (weight (key_at (turn % 3)) w) ≤ highest (key_at (turn % 3))
  pub trial :
      r.1 ≡ set_weight (key_at (turn % 3)) (stepped cfg turn (weight (key_at (turn % 3)) w)) w

shrinking :
    (cfg : Config) (i : ℕ) (w : Weights)
    → i % 6 ≡ 4
    → cfg.step_num ≤ cfg.step_den
    → w.success_rate ≤ 2_000_000
    → (lowest (key_at (i % 3)) ≤ tried cfg i w) × (tried cfg i w ≤ highest (key_at (i % 3)))
unfolding perturbed
shrinking cfg i w at step top =
    let turn : i % 3 ≡ 1 = omega (arith, at) in
    let down : i / 3 % 2 ≡ 1 = omega (arith, at) in
    rw (turn, down)
      (
        omega arith,
        omega (
          arith,
          top,
          scale_le w.success_rate (cfg.step_den - cfg.step_num) cfg.step_den (omega arith),
        ),
      )

IsFound-here :
    (cfg : Config) (i : ℕ) (w : Weights)
    → (ltb (tried cfg i w) (lowest (key_at (i % 3)))
        || ltb (highest (key_at (i % 3))) (tried cfg i w))
      ≡ false
    → IsFound cfg w (i + 1, set_weight (key_at (i % 3)) (tried cfg i w) w)
IsFound-here cfg i w fits =
    let key = key_at (i % 3) in
    let low : lowest key ≤ tried cfg i w = ground (arith, fits) in
    let high : tried cfg i w ≤ highest key = ground (arith, fits) in
    let same = perturbed-stepped cfg i (weight key w) in
    record {
      turn = i;
      index = refl;
      low = subst (λ v. lowest key ≤ v) same low;
      high = subst (λ v. v ≤ highest key) same high;
      trial = ap (λ v. set_weight key v w) same;
    }

rotate-IsFound :
    (cfg : Config) (n j i : ℕ) (w : Weights)
    → j < n
    → (i + j) % 6 ≡ 4
    → cfg.step_num ≤ cfg.step_den
    → w.success_rate ≤ 2_000_000
    → IsFound cfg w (rotate cfg n w i)
unfolding rotate
rotate-IsFound cfg zero j i w less at step top = absurd (omega (arith, less))
rotate-IsFound cfg (suc n) zero i w less at step top =
    let key = key_at (i % 3) in
    let v = tried cfg i w in
    let fits = shrinking cfg i w (omega (arith, at)) step top in
    if_elim (IsFound cfg w) (ltb v (lowest key) || ltb (highest key) v)
      (λ out. absurd (ground (arith, out, fits))) (λ ok. IsFound-here cfg i w ok)
rotate-IsFound cfg (suc n) (suc j) i w less at step top =
    let key = key_at (i % 3) in
    let v = tried cfg i w in
    if_elim (IsFound cfg w) (ltb v (lowest key) || ltb (highest key) v)
      (λ _. rotate-IsFound cfg n j (i + 1) w (omega (arith, less)) (omega (arith, at)) step top)
      (λ ok. IsFound-here cfg i w ok)

-- From weights in bounds, with a step of at most the whole, the rotation finds a trial within its six
-- turns, wherever it starts: the weights with one of them taken one step up, in the first three turns
-- of six, or down, in the others, and that one in bounds. A weight of zero is tried as it is.
pub rotate_finds :
    (cfg : Config) (i : ℕ) (w : Weights)
    → cfg.step_num ≤ cfg.step_den
    → in_bounds w ≡ true
    → IsFound cfg w (rotate cfg 6 w i)
unfolding in_bounds
rotate_finds cfg i w step ok =
    rotate-IsFound cfg 6 ((10 - i % 6) % 6) i w (omega arith) (omega arith) step
      (ground (arith, ok))

set_weight-in_bounds :
    (key : Key) (v : ℕ) (w : Weights)
    → lowest key ≤ v
    → v ≤ highest key
    → in_bounds w ≡ true
    → in_bounds (set_weight key v w) ≡ true
unfolding in_bounds
set_weight-in_bounds latency_key v w low high ok = ground (arith, low, high, ok)
set_weight-in_bounds success_key v w low high ok = ground (arith, low, high, ok)
set_weight-in_bounds throughput_key v w low high ok = ground (arith, low, high, ok)

pub rotate-in_bounds :
    (cfg : Config) (n i : ℕ) (w : Weights)
    → in_bounds w ≡ true
    → in_bounds (rotate cfg n w i).1 ≡ true
unfolding rotate
rotate-in_bounds cfg zero i w ok = ok
rotate-in_bounds cfg (suc n) i w ok =
    let key = key_at (i % 3) in
    let v = tried cfg i w in
    if_elim (λ (r : ℕ × Weights). in_bounds r.1 ≡ true) (ltb v (lowest key) || ltb (highest key) v)
      (λ _. rotate-in_bounds cfg n (i + 1) w ok)
      (λ fits. set_weight-in_bounds key v w (ground (arith, fits)) (ground (arith, fits)) ok)
