-- ===== src/Circuit/Backoff.antt =====
-- The invariant of every circuit state, kept by whatever happens to it.
use auto_squid.Base.{
  ℕ, ◌≤◌, ◌<◌, ◌≡◌, ◌⊎◌, arith, text_eq, inl, refl, List, Text, ◌∷◌, some, [], nat_eq,
}
use auto_squid.Circuit.Lookups.{
  ask, lookup-charge_failure, lookup-record_success, lookup-is_circuit_open,
}
use auto_squid.Circuit.{
  Config, Circuit, fresh, backoff_base, second, make_config, charge, credit, Circuits,
  reset_circuits, charge_failure, record_success, is_circuit_open, or_fresh,
}
use auto_squid.Dict.Laws.{lookup-nil}
use auto_squid.Dict.{lookup}

pub record IsConfig (cfg : Config) : Type 0 where
  pub threshold : 1 ≤ cfg.circuit_threshold
  pub max_backoff : second ≤ cfg.circuit_max_backoff
  pub window : second ≤ cfg.slow_start_window
  pub success : 1 ≤ cfg.slow_start_success

pub make_config-IsConfig : (t m w s : ℕ) → IsConfig (make_config t m w s)
unfolding make_config
make_config-IsConfig t m w s = omega arith

-- what holds of a state at all times: the count stays under the threshold, and a backoff that was
-- ever set lies between the base and the maximum
pub record IsState (cfg : Config) (s : Circuit) : Type 0 where
  pub count : s.consec_fail < cfg.circuit_threshold
  pub range : (s.backoff ≡ 0) ⊎ ((backoff_base ≤ s.backoff) × (s.backoff ≤ cfg.circuit_max_backoff))

module _ (cfg : Config) (ok : IsConfig cfg) where
  pub fresh-IsState : IsState cfg fresh
  fresh-IsState = record { count = omega (arith, ok.threshold); range = inl refl }

  pub charge-IsState : (now : ℕ) (s : Circuit) → IsState cfg s → IsState cfg (charge cfg now s).0
  unfolding charge
  charge-IsState now s h = record {
    count = ground (arith, ok.threshold, h.count);
    range = ground (arith, ok.max_backoff, h.range);
  }

  pub credit-IsState : (now : ℕ) (s : Circuit) → IsState cfg s → IsState cfg (credit cfg now s)
  unfolding credit
  credit-IsState now s h = record {
    count = ground (arith, ok.threshold, h.count);
    range = ground (arith, ok.max_backoff, h.range);
  }

module _ (cfg : Config) (ok : IsConfig cfg) where
  pub ask-IsState : (now : ℕ) (s : Circuit) → IsState cfg s → IsState cfg (ask now s)
  unfolding ask
  ask-IsState now s h = record {
    count = ground (arith, ok.threshold, h.count);
    range = ground (arith, h.range);
  }

-- every state of the table
pub record IsTable (cfg : Config) (c : Circuits) : Type 0 where
  pub at : (pid : Text) (s : Circuit) → lookup pid c.table ≡ some s → IsState cfg s

-- the calls that change the table
pub data Event : Type 0 where
  failed : ℕ → Text → Event
  succeeded : ℕ → Text → Event
  asked : ℕ → Text → Event
  reset : Event

unfoldable pub step : Config → Circuits → Event → Circuits
step cfg c (failed now pid) = charge_failure cfg now pid c
step cfg c (succeeded now pid) = record_success cfg now pid c
step cfg c (asked now pid) = (is_circuit_open now pid c).1
step cfg c reset = reset_circuits c

unfoldable pub run : Config → Circuits → List Event → Circuits
run cfg c [] = c
run cfg c (e ∷ es) = run cfg (step cfg c e) es

module _ (cfg : Config) (ok : IsConfig cfg) where
  step-IsTable : (c : Circuits) (e : Event) → IsTable cfg c → IsTable cfg (step cfg c e)
  unfolding step reset_circuits
  step-IsTable c (failed now pid) h = record {
    at = λ q s e.
        let old = or_fresh (lookup pid c.table) in
        ground (
          arith,
          e,
          lookup-charge_failure cfg now pid q c,
          h.at pid old,
          h.at q s,
          fresh-IsState cfg ok,
          charge-IsState cfg ok now old,
        );
  }
  step-IsTable c (succeeded now pid) h = record {
    at = λ q s e.
        let old = or_fresh (lookup pid c.table) in
        ground (
          arith,
          e,
          lookup-record_success cfg now pid q c,
          h.at pid old,
          h.at q s,
          credit-IsState cfg ok now old,
        );
  }
  step-IsTable c (asked now pid) h = record {
    at = λ q s e.
        let old = or_fresh (lookup pid c.table) in
        ground (
          arith,
          e,
          lookup-is_circuit_open now pid q c,
          h.at pid old,
          h.at q s,
          ask-IsState cfg ok now old,
        );
  }
  step-IsTable c reset h = record { at = λ q s e. cc (lookup-nil {V = Circuit} q) }

  pub run-IsTable : (es : List Event) (c : Circuits) → IsTable cfg c → IsTable cfg (run cfg c es)
  unfolding run
  run-IsTable [] c h = h
  run-IsTable (e ∷ es) c h = run-IsTable es (step cfg c e) (step-IsTable c e h)

-- before anything is known of a proxy
abbrev pub untouched : Circuits
untouched = record { table = []; version = 0; open_count = 0 }

-- Whatever sequence of failures, successes, questions and resets a breaker goes through from an empty
-- table on, every proxy's count stays below the threshold, and its backoff is unset or between the
-- base and the maximum. The settings must be as the constructor clamps them.
pub run-IsState :
    (cfg : Config) (es : List Event) (pid : Text) (s : Circuit)
    → IsConfig cfg
    → lookup pid (run cfg untouched es).table ≡ some s
    → IsState cfg s
run-IsState cfg es pid s ok found =
    let start : IsTable cfg untouched = record { at = λ q u e. cc (lookup-nil {V = Circuit} q) } in
    (run-IsTable cfg ok es untouched start).at pid s found
