-- ===== src/Tuner/Windows.antt =====
-- Windows with too little traffic, and switching the tuner off.
use auto_squid.Tuner.{
  Config, Baseline, Tuner, max_extensions, cycle, extend_window, reset_window, set_enabled, stop,
  apply_weights,
}
use auto_squid.Base.{
  ℕ, zero, suc, ◌+◌, ◌≤◌, ◌<◌, ◌≡◌, ap, ◌∙◌, true, false, some, arith, nat_eq, text_eq, length,
}

-- windows in a row, none of which a winner is observed in
unfoldable pub idle_windows : Config → ℕ → Tuner → Tuner
idle_windows cfg zero s = s
idle_windows cfg (suc n) s = idle_windows cfg n (cycle cfg 0 0 s)

extended :
    (cfg : Config) (s : Tuner)
    → length s.win_ttfb < cfg.min_samples
    → s.extensions < max_extensions
    → cycle cfg 0 0 s ≡ record s { extensions = s.extensions + 1 }
unfolding cycle extend_window
extended cfg s few left = ground (arith, few, left)

discarded :
    (cfg : Config) (s : Tuner)
    → length s.win_ttfb < cfg.min_samples
    → max_extensions ≤ s.extensions
    → cycle cfg 0 0 s ≡ reset_window s
unfolding cycle extend_window
discarded cfg s few over = ground (arith, few, over)

-- Too few samples never hold the tuner up: from a window that has been extended `e` times, at most
-- three, the window that ends the extensions discards the samples and starts afresh, and the weights
-- and the baseline are as they were.
pub idle_windows-reset :
    (cfg : Config) (left : ℕ) (s : Tuner)
    → length s.win_ttfb < cfg.min_samples
    → s.extensions + left ≡ max_extensions
    → idle_windows cfg (suc left) s ≡ reset_window s
unfolding idle_windows reset_window
idle_windows-reset cfg zero s few e = discarded cfg s few (omega (arith, e))
idle_windows-reset cfg (suc left) s few e =
    let longer : Tuner = record s { extensions = s.extensions + 1 } in
    ap (idle_windows cfg (suc left)) (extended cfg s few (omega (arith, e)))
    ∙ idle_windows-reset cfg left longer few (omega (arith, e))

-- Switching the tuner off while it runs stops it on the baseline's weights, whatever was on trial.
pub set_enabled_off :
    (s : Tuner) (b : Baseline)
    → s.enabled ≡ true
    → s.baseline ≡ some b
    → ((set_enabled false s).current ≡ b.weights)
      × ((set_enabled false s).running ≡ false)
      × ((set_enabled false s).baseline ≡ some b)
unfolding set_enabled stop apply_weights
set_enabled_off s b on hit = ground (arith, on, hit)
