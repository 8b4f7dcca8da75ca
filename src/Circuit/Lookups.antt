-- ===== src/Circuit/Lookups.antt =====
-- What each operation does to the state of each proxy: its own changes by one function, and that of
-- every other proxy stays.
use mathlib.Core.Option
use auto_squid.Circuit.{
  Config, Circuit, Circuits, fresh, or_fresh, charge, charge_failure, credit, record_success,
  is_circuit_open, ℕ, Text, if◌then◌else◌, ◌==◌, lookup, circuit_state, rearm_slow_start, ltb,
}
use auto_squid.Base.{◌≡◌, false, none, some, arith, nat_eq, text_eq, text_beq_iff, pair_eq}
use auto_squid.Dict.{put}
use auto_squid.Dict.Laws.{lookup-put}

-- what `is_circuit_open` does to the state of its proxy
unfoldable pub ask : ℕ → Circuit → Circuit
ask now s =
    if s.open_until == 0
    then s
    else if ltb now s.open_until
    then s
    else record s { open_until = 0; started_at = now; slow_start_ok = 0; consec_fail = 0 }

module _ (cfg : Config) (now : ℕ) (pid j : Text) (c : Circuits) where
  pub lookup-charge_failure : lookup j (charge_failure cfg now pid c).table ≡ (
      if pid == j
      then some (charge cfg now (or_fresh (lookup pid c.table))).0
      else lookup j c.table)
  unfolding charge_failure circuit_state
  lookup-charge_failure = ground (
    arith,
    lookup-put pid j fresh c.table,
    lookup-put pid j (charge cfg now (or_fresh (lookup pid c.table))).0 c.table,
    lookup-put pid j (charge cfg now fresh).0 (put pid fresh c.table),
  )

  pub lookup-record_success :
      lookup j (record_success cfg now pid c).table
      ≡ (if pid == j then Option.map (credit cfg now) (lookup pid c.table) else lookup j c.table)
  unfolding record_success
  lookup-record_success = ground (
    arith,
    lookup-put pid j (credit cfg now (or_fresh (lookup pid c.table))) c.table,
    text_beq_iff pid j,
  )

module _ (now : ℕ) (pid j : Text) (c : Circuits) where
  pub lookup-is_circuit_open :
      lookup j (is_circuit_open now pid c).1.table
      ≡ (if pid == j then Option.map (ask now) (lookup pid c.table) else lookup j c.table)
  unfolding is_circuit_open ask rearm_slow_start
  lookup-is_circuit_open =
      let s = or_fresh (lookup pid c.table) in
      let cleared : Circuit = record s { open_until = 0 } in
      ground (
        arith,
        lookup-put pid pid cleared c.table,
        lookup-put pid j cleared c.table,
        lookup-put pid j (record cleared { started_at = now; slow_start_ok = 0; consec_fail = 0 })
            (put pid cleared c.table),
        text_beq_iff pid j,
        text_beq_iff pid pid,
      )

  -- the answer
  pub is_circuit_open-eq :
      (is_circuit_open now pid c).0
      ≡ elim (lookup pid c.table) [ none ↦ false | some s ↦ ltb now s.open_until ]
  unfolding is_circuit_open
  is_circuit_open-eq = ground arith
