-- ===== src/Tests/Tuning.antt =====
-- The tuner at concrete inputs.
use auto_squid.Tuner.{Weights, Config, Baseline, Tuner, in_bounds, rotate, set_enabled, cycle}
use auto_squid.Tuner.Trials.{IsFound, rotate_finds}
use auto_squid.Tuner.Windows.{set_enabled_off}
use auto_squid.Tuner.Safety.{
  IsBounded, won, overridden, window_over, switched, handle_all, handle_all-IsBounded, Ratchet,
  cycle-Ratchet,
}
use auto_squid.Base.{◌≡◌, refl, true, false, none, some, [], ◌∷◌, nat_eq, text_eq, arith}

abbrev tuning : Config
tuning = record {
  min_samples = 3;
  step_num = 1;
  step_den = 5;
  hysteresis_num = 1;
  hysteresis_den = 20;
  guard_num = 1;
  guard_den = 20;
  persist = true;
}

abbrev defaults : Weights
defaults = record { latency = 1_000_000; success_rate = 500_000; throughput = 0 }

abbrev best : Baseline
best = record { weights = defaults; mean_ttfb = 900; sr = some (9, 10) }

abbrev pub tuner : Tuner
tuner = record {
  enabled = true;
  running = true;
  win_ttfb = 300 ∷ 400 ∷ 500 ∷ [];
  win_count = 3;
  baseline = some best;
  pending_baseline = false;
  extensions = 0;
  trial_idx = 4;
  since_measure = 2;
  last_decision = none;
  current = defaults;
  saved = none;
}

rotate_finds_example : IsFound tuning defaults (rotate tuning 6 defaults 0)
unfolding in_bounds
rotate_finds_example = rotate_finds tuning 0 defaults (omega arith) refl

handle_all-IsBounded_example :
    IsBounded
      (handle_all tuning (won 0 700 ∷ window_over 8 9 ∷ overridden ∷ switched false ∷ []) tuner)
unfolding in_bounds
handle_all-IsBounded_example =
    handle_all-IsBounded tuning (won 0 700 ∷ window_over 8 9 ∷ overridden ∷ switched false ∷ [])
      tuner (record { current = refl; baseline = refl })

cycle-Ratchet_example :
    (b' : Baseline) × ((cycle tuning 9 10 tuner).baseline ≡ some b') × Ratchet tuning tuner best b'
cycle-Ratchet_example = cycle-Ratchet tuning 9 10 tuner best refl refl

set_enabled_off_example :
    ((set_enabled false tuner).current ≡ defaults)
    × ((set_enabled false tuner).running ≡ false)
    × ((set_enabled false tuner).baseline ≡ some best)
set_enabled_off_example = set_enabled_off tuner best refl refl
