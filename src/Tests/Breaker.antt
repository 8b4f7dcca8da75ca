-- ===== src/Tests/Breaker.antt =====
-- The circuit breaker at concrete inputs.
use auto_squid.Circuit.{Config, Circuit, Circuits, next_backoff}
use auto_squid.Circuit.Opening.{charge_all, charge_all_opens}
use auto_squid.Base.{◌+◌, ◌≡◌, refl, [], ◌∷◌, ◌++◌, arith, nat_eq, text_eq, text}

-- the defaults of the constructor
abbrev defaults : Config
defaults = record {
  circuit_threshold = 3;
  circuit_max_backoff = 300_000_000;
  slow_start_window = 60_000_000;
  slow_start_success = 3;
}

abbrev healthy : Circuit
healthy = record { consec_fail = 0; open_until = 0; backoff = 0; started_at = 0; slow_start_ok = 0 }

abbrev opened : Circuit
opened = record {
  consec_fail = 0;
  open_until = 12_000_000;
  backoff = 4_000_000;
  started_at = 0;
  slow_start_ok = 0;
}

abbrev one_open : Circuits
one_open = record { table = (text "p", opened) ∷ []; version = 1; open_count = 1 }

charge_all_opens_example :
    (charge_all defaults (5 ∷ 6 ∷ []) healthy ≡ record healthy { consec_fail = 2 })
    × (charge_all defaults ((5 ∷ 6 ∷ []) ++ 9 ∷ []) healthy ≡ record healthy {
      consec_fail = 0;
      backoff = next_backoff defaults 0;
      open_until = 9 + next_backoff defaults 0;
    })
charge_all_opens_example =
    charge_all_opens defaults (5 ∷ 6 ∷ []) 9 healthy (omega arith, (omega arith, tt)) (omega arith)
      refl refl
