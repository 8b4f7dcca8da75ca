-- ===== src/Tests/Gates.antt =====
-- The gate of dead targets and the marks of degraded proxies at concrete inputs.
use auto_squid.DeadTarget.{Targets, Marks, dead_target_active, note_target_race_failure, is_off}
use auto_squid.DeadTarget.Rounds.{note_twice}
use auto_squid.Base.{◌+◌, ◌≡◌, refl, [], ◌∷◌, arith, ltb, nat_eq, text_eq, text_beq, text}
use auto_squid.Dict.{lookup}

abbrev gate : Targets
gate = record { ttl = 30_000_000; table = []; marked = 0 }

abbrev suspect : Targets
suspect = record gate {
  table = (text "x", record { fails = 1; prove_until = 160_000_000; deadline = 0 }) ∷ [];
}

note_twice_example :
    (dead_target_active (text "x") 130_000_000 (
      note_target_race_failure
        (text "x")
        0
        110_000_000
        (note_target_race_failure (text "x") 0 100_000_000 gate))).0
    ≡ ltb 130_000_000 (110_000_000 + 30_000_000)
unfolding lookup is_off text_beq
note_twice_example =
    note_twice (text "x") 0 100_000_000 0 110_000_000 130_000_000 gate refl refl (omega arith)
      (omega arith) (omega arith) (omega arith)

abbrev unmarked : Marks
unmarked = record { until = []; degraded = []; degrades = 0 }
