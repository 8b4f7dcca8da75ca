-- ===== src/Tuner/Safety.antt =====
-- The tuner never leaves the bounds, and what it may adopt.
use auto_squid.Tuner.{
  Weights, Config, Baseline, Tuner, Payload, in_bounds, observe, manual_override, cycle,
  set_enabled, restore, start, decide, measure, judge, extend_window, apply_trial, apply_weights,
  base_weights, reset_window, improved, sr_ok, save_state, sum, remeasure_every, window_cap,
  max_extensions,
}
use native.Mathlib.Nat.{mul-le-mul_right, mul-le-mul_left}
use auto_squid.Tuner.Trials.{rotate-in_bounds}
use auto_squid.Base.{
  ℕ, ◌≡◌, Bool, true, Option, none, some, nat_eq, text_eq, ◌+◌, ◌/◌, ◌<◌, refl, sym, ◌⊎◌, inl, inr,
  false, not, ◌&&◌, ◌||◌, List, [], ◌∷◌, arith, ltb, leb, if◌then◌else◌, Option-cases, if_elim,
  subst, ◌==◌, pair_eq, option_eq, length, ◌-◌, ◌≤◌, Bool-cases, ap, ◌∙◌,
}
use auto_squid.Dict.{total}

abbrev baseline_ok : Option Baseline → Bool
baseline_ok none = true
baseline_ok (some b) = in_bounds b.weights

-- the weights that the selector uses and those of the baseline
pub record IsBounded (s : Tuner) : Type 0 where
  pub current : in_bounds s.current ≡ true
  pub baseline : baseline_ok s.baseline ≡ true

base_ok :
    (b : Option Baseline) (w : Weights)
    → baseline_ok b ≡ true
    → in_bounds w ≡ true
    → in_bounds (base_weights b w) ≡ true
base_ok none w hb hw = hw
base_ok (some b) w hb hw = hb

apply_trial-IsBounded : (cfg : Config) (s : Tuner) → IsBounded s → IsBounded (apply_trial cfg s)
unfolding apply_trial
apply_trial-IsBounded cfg s h = record {
  current =
      rotate-in_bounds cfg 6 s.trial_idx (base_weights s.baseline s.current)
        (base_ok s.baseline s.current h.baseline h.current);
  baseline = h.baseline;
}

judge-IsBounded :
    (cfg : Config) (m b : Baseline) (n : ℕ) (s : Tuner)
    → in_bounds m.weights ≡ true
    → in_bounds b.weights ≡ true
    → IsBounded s
    → IsBounded (judge cfg m b n s)
unfolding judge save_state
judge-IsBounded cfg m b n s hm hb h =
    if_elim IsBounded (improved cfg m.mean_ttfb b.mean_ttfb && sr_ok cfg m.sr b.sr)
      (λ _.
        if_elim IsBounded cfg.persist (λ _. record { current = h.current; baseline = hm })
          (λ _. record { current = h.current; baseline = hm }))
      (λ _. record { current = hb; baseline = h.baseline })

abbrev pub is_due : Tuner → Bool
is_due s = s.pending_baseline || leb remeasure_every s.since_measure

decide-none :
    (cfg : Config) (m : Baseline) (n : ℕ) (s : Tuner)
    → s.baseline ≡ none
    → decide cfg m n s ≡ measure m n s
unfolding decide
decide-none cfg m n s h = ground (arith, h)

decide-some :
    (cfg : Config) (m b : Baseline) (n : ℕ) (s : Tuner)
    → s.baseline ≡ some b
    → decide cfg m n s ≡ (if is_due s then measure m n s else judge cfg m b n s)
unfolding decide
decide-some cfg m b n s h = ground (arith, h)

decide-IsBounded :
    (cfg : Config) (m : Baseline) (n : ℕ) (s : Tuner)
    → in_bounds m.weights ≡ true
    → IsBounded s
    → IsBounded (decide cfg m n s)
unfolding measure
decide-IsBounded cfg m n s ok h =
    let measured : IsBounded (measure m n s) = record { current = h.current; baseline = ok } in
    elim (Option-cases s.baseline) [
      | inl miss ↦ subst IsBounded (sym (decide-none cfg m n s miss)) measured
      | inr (b, hit) ↦
          let hb : in_bounds b.weights ≡ true = ground (arith, h.baseline, hit) in
          subst IsBounded (sym (decide-some cfg m b n s hit)) (
            if_elim IsBounded (is_due s) (λ _. measured) (λ _. judge-IsBounded cfg m b n s ok hb h))
    ]

abbrev pub measured_at : Tuner → ℕ → ℕ → Baseline
measured_at s succ total = record {
  weights = s.current;
  mean_ttfb = sum s.win_ttfb / length s.win_ttfb;
  sr = if total == 0 then none else some (succ, total);
}

cycle-IsBounded :
    (cfg : Config) (succ total : ℕ) (s : Tuner) → IsBounded s → IsBounded (cycle cfg succ total s)
unfolding cycle extend_window reset_window
cycle-IsBounded cfg succ total s h =
    let clear : IsBounded (reset_window s) = record {
      current = h.current;
      baseline = h.baseline;
    } in
    let m = measured_at s succ total in
    let n = length s.win_ttfb in
    if_elim IsBounded (ltb n cfg.min_samples)
      (λ _.
        if_elim IsBounded (leb (s.extensions + 1) max_extensions)
          (λ _. record { current = h.current; baseline = h.baseline }) (λ _. clear))
      (λ _.
        apply_trial-IsBounded cfg (decide cfg m n (reset_window s))
          (decide-IsBounded cfg m n (reset_window s) h.current clear))

pub data Event : Type 0 where
  won : ℕ → ℕ → Event
  overridden : Event
  window_over : ℕ → ℕ → Event
  switched : Bool → Event
  restored : Option Payload → Event

unfoldable pub handle : Config → Event → Tuner → Tuner
handle cfg (won i ttfb) s = observe i ttfb s
handle cfg overridden s = manual_override s
handle cfg (window_over succ total) s = cycle cfg succ total s
handle cfg (switched on) s = set_enabled on s
handle cfg (restored p) s = restore p s

observe-IsBounded : (i ttfb : ℕ) (s : Tuner) → IsBounded s → IsBounded (observe i ttfb s)
unfolding observe
observe-IsBounded i ttfb s h =
    if_elim IsBounded (not s.enabled) (λ _. h)
      (λ _.
        if_elim IsBounded (ltb (length s.win_ttfb) window_cap)
          (λ _. record { current = h.current; baseline = h.baseline })
          (λ _.
            if_elim IsBounded (ltb i window_cap)
              (λ _. record { current = h.current; baseline = h.baseline })
              (λ _. record { current = h.current; baseline = h.baseline })))

set_enabled-IsBounded : (on : Bool) (s : Tuner) → IsBounded s → IsBounded (set_enabled on s)
unfolding set_enabled start apply_weights
set_enabled-IsBounded true s h =
    if_elim IsBounded s.enabled (λ _. h) (λ _. record { current = h.current; baseline = refl })
set_enabled-IsBounded false s h = record {
  current = ground (arith, h.current, h.baseline);
  baseline = ground (arith, h.baseline);
}

restore-IsBounded : (p : Option Payload) (s : Tuner) → IsBounded s → IsBounded (restore p s)
unfolding restore apply_weights
restore-IsBounded none s h = h
restore-IsBounded (some p) s h = record {
  current = ground (arith, h.current);
  baseline = ground (arith, h.baseline);
}

handle-IsBounded : (cfg : Config) (e : Event) (s : Tuner) → IsBounded s → IsBounded (handle cfg e s)
unfolding handle manual_override
handle-IsBounded cfg (won i ttfb) s h = observe-IsBounded i ttfb s h
handle-IsBounded cfg overridden s h =
    if_elim IsBounded s.enabled (λ _. record { current = h.current; baseline = h.baseline })
      (λ _. h)
handle-IsBounded cfg (window_over succ total) s h = cycle-IsBounded cfg succ total s h
handle-IsBounded cfg (switched on) s h = set_enabled-IsBounded on s h
handle-IsBounded cfg (restored p) s h = restore-IsBounded p s h

unfoldable pub handle_all : Config → List Event → Tuner → Tuner
handle_all cfg [] s = s
handle_all cfg (e ∷ es) s = handle_all cfg es (handle cfg e s)

-- From weights in bounds on, whatever is observed, measured, stored, switched on or off: the weights
-- that the selector uses and those of the baseline stay within the fixed bounds. Weights that are
-- written past the tuner, as POST /cost does before it calls manual_override, are not among these.
pub handle_all-IsBounded :
    (cfg : Config) (es : List Event) (s : Tuner) → IsBounded s → IsBounded (handle_all cfg es s)
unfolding handle_all
handle_all-IsBounded cfg [] s h = h
handle_all-IsBounded cfg (e ∷ es) s h =
    handle_all-IsBounded cfg es (handle cfg e s) (handle-IsBounded cfg e s h)

-- what a window may do to the baseline `b`: nothing, or replace it by the weights that were in use,
-- with a smaller mean and a success rate that the guard lets pass
abbrev pub Ratchet : Config → Tuner → Baseline → Baseline → Type 0
Ratchet cfg s b b' =
    (b' ≡ b)
    ⊎ ((b'.weights ≡ s.current) × (b'.mean_ttfb < b.mean_ttfb) × (sr_ok cfg b'.sr b.sr ≡ true))

sub_le : (a b : ℕ) → a - b ≤ a
sub_le a b = omega arith

improved_less : (cfg : Config) (mean base : ℕ) → improved cfg mean base ≡ true → mean < base
unfolding improved
improved_less cfg mean base h = elim (Bool-cases (ltb mean base)) [
  | inl less ↦ ground (arith, less)
  | inr more ↦
      let over : base ≤ mean = ground (arith, more) in
      let rest = cfg.hysteresis_den - cfg.hysteresis_num in
      absurd (
        ground (
          arith,
          h,
          mul-le-mul_right rest over,
          mul-le-mul_left mean (sub_le cfg.hysteresis_den cfg.hysteresis_num),
        ))
]

judge-Ratchet :
    (cfg : Config) (m b : Baseline) (n : ℕ) (s : Tuner)
    → m.weights ≡ s.current
    → s.baseline ≡ some b
    → (b' : Baseline) × ((judge cfg m b n s).baseline ≡ some b') × Ratchet cfg s b b'
unfolding judge save_state
judge-Ratchet cfg m b n s same hit =
    elim (Bool-cases (improved cfg m.mean_ttfb b.mean_ttfb && sr_ok cfg m.sr b.sr)) [
      | inl better ↦ (
        m,
        ground (arith, better),
        inr (
          same,
          improved_less cfg m.mean_ttfb b.mean_ttfb (ground (arith, better)),
          ground (arith, better),
        ),
      )
      | inr worse ↦ (b, ground (arith, worse, hit), inl refl)
    ]

cycle_enough :
    (cfg : Config) (succ total : ℕ) (s : Tuner)
    → ltb (length s.win_ttfb) cfg.min_samples ≡ false
    → (cycle cfg succ total s).baseline
      ≡ (decide cfg (measured_at s succ total) (length s.win_ttfb) (reset_window s)).baseline
unfolding cycle apply_trial
cycle_enough cfg succ total s many = ground (arith, many)

cycle_few :
    (cfg : Config) (succ total : ℕ) (s : Tuner)
    → ltb (length s.win_ttfb) cfg.min_samples ≡ true
    → (cycle cfg succ total s).baseline ≡ s.baseline
unfolding cycle extend_window reset_window
cycle_few cfg succ total s few = ground (arith, few)

later_lem :
    (cfg : Config) (m b : Baseline) (n : ℕ) (s : Tuner)
    → (reset_window s).baseline ≡ some b
    → is_due (reset_window s) ≡ false
    → decide cfg m n (reset_window s) ≡ judge cfg m b n (reset_window s)
later_lem cfg m b n s hit later =
    decide-some cfg m b n (reset_window s) hit
    ∙ ap (λ d. if d then measure m n (reset_window s) else judge cfg m b n (reset_window s)) later

-- A window that is not due for a measurement leaves a baseline that is either the one before, or the
-- weights that were really in use during the window, with a smaller mean first-byte time and a success
-- rate that the guard lets pass.
pub cycle-Ratchet :
    (cfg : Config) (succ total : ℕ) (s : Tuner) (b : Baseline)
    → s.baseline ≡ some b
    → is_due s ≡ false
    → (b' : Baseline) × ((cycle cfg succ total s).baseline ≡ some b') × Ratchet cfg s b b'
unfolding reset_window
cycle-Ratchet cfg succ total s b hit later =
    let n = length s.win_ttfb in
    let m = measured_at s succ total in
    let step = judge-Ratchet cfg m b n (reset_window s) refl hit in
    elim (Bool-cases (ltb n cfg.min_samples)) [
      | inl few ↦ (b, cycle_few cfg succ total s few ∙ hit, inl refl)
      | inr many ↦ (
        step.0,
        cycle_enough cfg succ total s many
            ∙ (ap (λ t. t.baseline) (later_lem cfg m b n s hit later) ∙ step.1),
        step.2,
      )
    ]
