-- ===== src/Tests/Attempts.antt =====
-- The selector's records of attempts at concrete inputs.
use auto_squid.Circuit
use auto_squid.Concurrency
use auto_squid.Circuit.Backoff.{untouched}
use auto_squid.Concurrency.{Conc, make_config, raise_limit, lower_limit}
use auto_squid.Concurrency.Bounds.{
  make_config-IsConfig, InRange, conc_of, run-InRange, conc_of-run, follow, limit_moves,
}
use auto_squid.InFlight.{active}
use auto_squid.InFlight.Counts.{active-run, open_after, run-bounded, idle}
use auto_squid.InFlight.Counts
use auto_squid.Concurrency.Bounds
use auto_squid.Metrics.{Store, new_metrics, timeout}
use auto_squid.Metrics.Totals.{
  IsBalanced, observe_all, observe_all-IsBalanced, ttfb, server_error, failure, ofb, complete,
}
use auto_squid.Selector.{Selector, Quality, or_none, is_target_level_failure}
use auto_squid.Selector.Attribution.{other_failures, was_quiet, is_target_level_failure_lem}
use auto_squid.Base.{
  text_beq, ℕ, ◌≡◌, refl, true, ◌&&◌, [], ◌∷◌, arith, leb, nat_eq, Text, text_eq, text_beq, pair_eq,
  option_eq, text, false,
}
use auto_squid.Dict.{Dict, size, lookup}

abbrev breaker : Circuit.Config
breaker = Circuit.make_config 3 300_000_000 60_000_000 3

abbrev limits : Concurrency.Config
limits = make_config true 8 2 32 1 1 2 4

abbrev burst : Dict Text (Dict Text ℕ)
burst =
    (text "d", (text "a", 20_000_000) ∷ (text "b", 20_100_000) ∷ (text "old", 3_000_000) ∷ []) ∷ []

abbrev no_metrics : Store
no_metrics = record {
  proxy_metrics = [];
  domain_metrics = [];
  version = 0;
  dirty_keys = [];
  delete_keys = [];
  full_rewrite = false;
  stale_conn_retries = 0;
}

abbrev bursting : Selector
bursting = record {
  circuits = untouched;
  concs = [];
  domain_fail = burst;
  quality = [];
  domain_quality = [];
  metrics = no_metrics;
  failures_target_level = 0;
}

-- a success of long ago
abbrev old_success : Dict Text (Dict Text Quality)
old_success = (text "d", (text "e", record { ewma_ttfb = 40; obs = 1; ts = 1_000_000 }) ∷ []) ∷ []

is_target_level_failure_example :
    (is_target_level_failure (text "c") (text "d") 20_200_000 old_success burst).0 ≡ (
      leb 2 (size (other_failures (text "c") 20_200_000 (or_none (lookup (text "d") burst))))
      && was_quiet 20_200_000 (lookup (text "d") old_success))
unfolding lookup text_beq
is_target_level_failure_example =
    is_target_level_failure_lem (text "c") (text "d") 20_200_000 old_success burst
      (refl, (refl, (refl, tt)))

observe_all-IsBalanced_example :
    (k : ℕ) × IsBalanced k (
      observe_all
        (ttfb 70 ∷ failure timeout ∷ ttfb 80 ∷ server_error ∷ ofb 9 ∷ complete false 5 2 1 ∷ [])
        new_metrics)
observe_all-IsBalanced_example =
    observe_all-IsBalanced
      (ttfb 70 ∷ failure timeout ∷ ttfb 80 ∷ server_error ∷ ofb 9 ∷ complete false 5 2 1 ∷ []) 0
      new_metrics tt
      (record {
        attempts = refl;
        responses = refl;
        failures = refl;
        measured = refl;
        digested = (refl, refl);
        carried = omega arith;
        pending = omega arith;
        windows = (omega arith, omega arith, omega arith);
      })

run-InRange_example : InRange limits (
    conc_of limits (text "a") (
      Bounds.run limits
        (Bounds.failed (text "a") ∷ Bounds.failed (text "a") ∷ Bounds.succeeded (text "b") ∷ [])
        []))
unfolding make_config
run-InRange_example =
    run-InRange limits
      (Bounds.failed (text "a") ∷ Bounds.failed (text "a") ∷ Bounds.succeeded (text "b") ∷ [])
      (text "a") (make_config-IsConfig true 8 2 32 1 1 2 4) refl

active-run_example :
    active (text "a") (
      Counts.run
        (Counts.started (text "a") ∷ Counts.started (text "b") ∷ Counts.finished (text "b") ∷ [])
        idle)
    ≡ open_after
        (text "a")
        (Counts.started (text "a") ∷ Counts.started (text "b") ∷ Counts.finished (text "b") ∷ [])
        (active (text "a") idle)
active-run_example =
    active-run
      (Counts.started (text "a") ∷ Counts.started (text "b") ∷ Counts.finished (text "b") ∷ [])
      (text "a") idle
