-- ===== src/Tuner.antt =====
-- The automatic tuner of the cost weights (`AutoTuner` of auto_squid/tuner.py). Weights are counted in
-- millionths, times in microseconds, products and means rounded down; the step, the hysteresis and
-- the guard are fractions. The selector's three weights and the stored row are part of the state; the
-- random index of the reservoir and the parsed payload of the stored row are arguments.
pub mod Trials
pub mod Safety
pub mod Windows
use auto_squid.Base.{
  ℕ, zero, suc, ◌+◌, ◌-◌, ◌*◌, ◌/◌, ◌%◌, Bool, true, false, not, ◌&&◌, ◌||◌, Option, none, some,
  List, [], ◌∷◌, ◌++◌, ltb, leb, if◌then◌else◌, ◌==◌, nat_eq, text_eq, pair_eq, option_eq, length,
}
use auto_squid.Dict.{total}

pub record Weights : Type 0 where
  pub latency : ℕ
  pub success_rate : ℕ
  pub throughput : ℕ

-- `_WEIGHT_KEYS`, in the order of the rotation
pub data Key : Type 0 where
  latency_key success_key throughput_key : Key

-- `_WEIGHT_BOUNDS`
abbrev pub lowest : Key → ℕ
lowest latency_key = 200_000
lowest success_key = 0
lowest throughput_key = 0

abbrev pub highest : Key → ℕ
highest latency_key = 4_000_000
highest success_key = 2_000_000
highest throughput_key = 1_000_000

abbrev pub weight : Key → Weights → ℕ
weight latency_key w = w.latency
weight success_key w = w.success_rate
weight throughput_key w = w.throughput

abbrev pub set_weight : Key → ℕ → Weights → Weights
set_weight latency_key v w = record w { latency = v }
set_weight success_key v w = record w { success_rate = v }
set_weight throughput_key v w = record w { throughput = v }

-- `_WINDOW_CAP`, `_MAX_EXTENSIONS` and `_BASELINE_REMEASURE_EVERY`
abbrev pub window_cap : ℕ
window_cap = 20_000

abbrev pub max_extensions : ℕ
max_extensions = 3

abbrev pub remeasure_every : ℕ
remeasure_every = 10

pub record Config : Type 0 where
  pub min_samples : ℕ
  pub step_num : ℕ
  pub step_den : ℕ
  pub hysteresis_num : ℕ
  pub hysteresis_den : ℕ
  pub guard_num : ℕ
  pub guard_den : ℕ
  pub persist : Bool

-- a success rate is the pair of the successes and the attempts
pub record Baseline : Type 0 where
  pub weights : Weights
  pub mean_ttfb : ℕ
  pub sr : Option (ℕ × ℕ)

pub data Verdict : Type 0 where
  baseline_measured adopted rejected_degraded rejected_noise : Verdict

pub record Decision : Type 0 where
  pub verdict : Verdict
  pub measured : Baseline
  pub against : Option Baseline
  pub samples : ℕ

pub record Tuner : Type 0 where
  pub enabled : Bool
  pub running : Bool
  pub win_ttfb : List ℕ
  pub win_count : ℕ
  pub baseline : Option Baseline
  pub pending_baseline : Bool
  pub extensions : ℕ
  pub trial_idx : ℕ
  pub since_measure : ℕ
  pub last_decision : Option Decision
  pub current : Weights
  pub saved : Option Baseline

-- `xs[i] = v`
unfoldable pub set_at : ℕ → ℕ → List ℕ → List ℕ
set_at i v [] = []
set_at zero v (x ∷ xs) = v ∷ xs
set_at (suc i) v (x ∷ xs) = x ∷ set_at i v xs

-- `observe`; `i` is what `random.randrange(self._win_count)` returns
unfoldable pub observe : ℕ → ℕ → Tuner → Tuner
observe i ttfb s =
    if not s.enabled
    then s
    else if ltb (length s.win_ttfb) window_cap
    then record s { win_count = s.win_count + 1; win_ttfb = s.win_ttfb ++ ttfb ∷ [] }
    else if ltb i window_cap
    then record s { win_count = s.win_count + 1; win_ttfb = set_at i ttfb s.win_ttfb }
    else record s { win_count = s.win_count + 1 }

-- `manual_override`
unfoldable pub manual_override : Tuner → Tuner
manual_override s = if s.enabled then record s { pending_baseline = true } else s

-- `_apply`
unfoldable pub apply_weights : Weights → Tuner → Tuner
apply_weights w s = record s { current = w }

-- `_reset_window`
unfoldable pub reset_window : Tuner → Tuner
reset_window s = record s { win_ttfb = []; win_count = 0; extensions = 0 }

abbrev pub key_at : ℕ → Key
key_at zero = latency_key
key_at (suc zero) = success_key
key_at (suc (suc n)) = throughput_key

-- `base_w[key] * (1.0 + sign * self.step)`, the sign positive in every other turn of the rotation
unfoldable pub perturbed : Config → ℕ → ℕ → ℕ
perturbed cfg idx v =
    if idx / 3 % 2 == 0
    then v * (cfg.step_den + cfg.step_num) / cfg.step_den
    else v * (cfg.step_den - cfg.step_num) / cfg.step_den

-- the loop of `_next_trial`: the rotation index after it, and the weights to try
unfoldable pub rotate : Config → ℕ → Weights → ℕ → ℕ × Weights
unfolding perturbed
rotate cfg zero w idx = (idx, w)
rotate cfg (suc turns) w idx =
    let rest = rotate cfg turns w (idx + 1) in
    let key = key_at (idx % 3) in
    let v = perturbed cfg idx (weight key w) in
    if ltb v (lowest key) || ltb (highest key) v then rest else (idx + 1, set_weight key v w)

abbrev pub base_weights : Option Baseline → Weights → Weights
base_weights none w = w
base_weights (some b) w = b.weights

-- `_next_trial`, and the `_apply` of what it returns
unfoldable pub apply_trial : Config → Tuner → Tuner
unfolding rotate apply_weights
apply_trial cfg s =
    let (idx, w) = rotate cfg 6 (base_weights s.baseline s.current) s.trial_idx in
    apply_weights w (record s { trial_idx = idx })

unfoldable pub sum : List ℕ → ℕ
sum [] = 0
sum (x ∷ xs) = x + sum xs

-- `sr is None or base_sr is None or sr >= base_sr - self.sr_guard`
unfoldable pub sr_ok : Config → Option (ℕ × ℕ) → Option (ℕ × ℕ) → Bool
sr_ok cfg none base = true
sr_ok cfg (some r) none = true
sr_ok cfg (some (s, t)) (some (bs, bt)) =
    leb (bs * (t * cfg.guard_den)) ((s * cfg.guard_den + cfg.guard_num * t) * bt)

unfoldable pub improved : Config → ℕ → ℕ → Bool
improved cfg mean base =
    ltb (mean * cfg.hysteresis_den) (base * (cfg.hysteresis_den - cfg.hysteresis_num))

unfoldable pub degraded : Config → ℕ → ℕ → Bool
degraded cfg mean base =
    ltb (base * (cfg.hysteresis_den + cfg.hysteresis_num)) (mean * cfg.hysteresis_den)

-- `_save_state`
unfoldable pub save_state : Config → Tuner → Tuner
save_state cfg s = if cfg.persist then record s { saved = s.baseline } else s

-- the window of a trial against the baseline `b`
unfoldable pub judge : Config → Baseline → Baseline → ℕ → Tuner → Tuner
unfolding sr_ok improved degraded save_state apply_weights
judge cfg m b n s =
    if improved cfg m.mean_ttfb b.mean_ttfb && sr_ok cfg m.sr b.sr
    then save_state cfg (record s {
      since_measure = s.since_measure + 1;
      baseline = some m;
      last_decision =
          some (record { verdict = adopted; measured = m; against = some b; samples = n });
    })
    else apply_weights b.weights (record s {
      since_measure = s.since_measure + 1;
      last_decision = some (record {
        verdict =
            if degraded cfg m.mean_ttfb b.mean_ttfb || not (sr_ok cfg m.sr b.sr)
            then rejected_degraded
            else rejected_noise;
        measured = m;
        against = some b;
        samples = n;
      });
    })

-- the window of a measurement
unfoldable pub measure : Baseline → ℕ → Tuner → Tuner
measure m n s = record s {
  baseline = some m;
  pending_baseline = false;
  since_measure = 0;
  last_decision =
      some (record { verdict = baseline_measured; measured = m; against = none; samples = n });
}

-- a window that has too few samples
unfoldable pub extend_window : Tuner → Tuner
unfolding reset_window
extend_window s =
    if leb (s.extensions + 1) max_extensions
    then record s { extensions = s.extensions + 1 }
    else reset_window s

-- a window that has enough samples
unfoldable pub decide : Config → Baseline → ℕ → Tuner → Tuner
unfolding measure judge
decide cfg m n s = elim s.baseline [
  | none ↦ measure m n s
  | some b ↦
      if s.pending_baseline || leb remeasure_every s.since_measure
      then measure m n s
      else judge cfg m b n s
]

-- `_cycle`; `succ` and `total` are what `global_window_success` returns
unfoldable pub cycle : Config → ℕ → ℕ → Tuner → Tuner
unfolding extend_window decide apply_trial reset_window sum
cycle cfg succ total s =
    let n = length s.win_ttfb in
    if ltb n cfg.min_samples
    then extend_window s
    else (let m : Baseline = record {
      weights = s.current;
      mean_ttfb = sum s.win_ttfb / n;
      sr = if total == 0 then none else some (succ, total);
    } in
        apply_trial cfg (decide cfg m n (reset_window s)))

-- `start`
unfoldable pub start : Tuner → Tuner
start s = if not s.enabled || s.running then s else record s { running = true }

-- `stop`
unfoldable pub stop : Tuner → Tuner
stop s = record s { running = false }

-- `set_enabled`
unfoldable pub set_enabled : Bool → Tuner → Tuner
unfolding start stop apply_weights
set_enabled true s =
    if s.enabled
    then s
    else start (
        stop (record s {
          enabled = true;
          baseline = none;
          pending_baseline = false;
          extensions = 0;
          since_measure = 0;
          win_ttfb = [];
          win_count = 0;
        }))
set_enabled false s =
    if not s.enabled
    then s
    else stop (elim s.baseline [
      | none ↦ record s { enabled = false }
      | some b ↦ apply_weights b.weights (record s { enabled = false })
    ])

-- the parsed row: `weights` is `none` if its keys are not the three
pub record Payload : Type 0 where
  pub weights : Option Weights
  pub mean_ttfb : Option ℕ
  pub sr : Option (ℕ × ℕ)

unfoldable pub in_bounds : Weights → Bool
in_bounds w =
    leb (lowest latency_key) w.latency
    && leb w.latency (highest latency_key)
    && leb (lowest success_key) w.success_rate
    && leb w.success_rate (highest success_key)
    && leb (lowest throughput_key) w.throughput
    && leb w.throughput (highest throughput_key)

-- `_restore`; the argument is `none` if the row is absent or the database or the parser raises
unfoldable pub restore : Option Payload → Tuner → Tuner
unfolding in_bounds apply_weights
restore none s = s
restore (some p) s = elim p.weights [
  | none ↦ s
  | some w ↦ elim p.mean_ttfb [
    | none ↦ s
    | some mean ↦
        if not (in_bounds w) || mean == 0
        then s
        else apply_weights w
            (record s { baseline = some (record { weights = w; mean_ttfb = mean; sr = p.sr }) })
  ]
]
