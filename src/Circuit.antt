-- ===== src/Circuit.antt =====
-- The circuit breaker of `ProxySelector` (auto_squid/selector.py): the per-proxy state, the charge
-- of one failure, successes, slow start and the lazy release of an open circuit.
-- Times and durations are microseconds of the monotonic clock; 0 stands for the source's 0.0.
pub mod Lookups
pub mod Backoff
pub mod Opening
pub mod Recovery
use auto_squid.Base.{
  ℕ, ◌+◌, ◌*◌, ◌/◌, min, max, ltb, leb, Bool, true, false, not, ◌&&◌, Option, none, some, Text,
  if◌then◌else◌, ◌==◌, nat_eq, text_eq, [],
}
use auto_squid.Dict.{Dict, lookup, put}

abbrev pub second : ℕ
second = 1_000_000

-- `_CIRCUIT_BACKOFF_BASE`
abbrev pub backoff_base : ℕ
backoff_base = 1_000_000

-- `_CIRCUIT_BACKOFF_MULT`
abbrev pub backoff_mult : ℕ
backoff_mult = 2

pub record Config : Type 0 where
  pub circuit_threshold : ℕ
  pub circuit_max_backoff : ℕ
  pub slow_start_window : ℕ
  pub slow_start_success : ℕ

-- the clamping done by `__init__`
unfoldable pub make_config : ℕ → ℕ → ℕ → ℕ → Config
make_config threshold max_backoff window success = record {
  circuit_threshold = max 1 threshold;
  circuit_max_backoff = max second max_backoff;
  slow_start_window = max second window;
  slow_start_success = max 1 success;
}

-- One value of the table `_circuit`; `started_at` and `slow_start_ok` are 0 where the key is missing.
pub record Circuit : Type 0 where
  pub consec_fail : ℕ
  pub open_until : ℕ
  pub backoff : ℕ
  pub started_at : ℕ
  pub slow_start_ok : ℕ

abbrev pub fresh : Circuit
fresh = record { consec_fail = 0; open_until = 0; backoff = 0; started_at = 0; slow_start_ok = 0 }

pub record Circuits : Type 0 where
  pub table : Dict Text Circuit
  pub version : ℕ
  pub open_count : ℕ

abbrev pub or_fresh : Option Circuit → Circuit
or_fresh none = fresh
or_fresh (some s) = s

-- `_circuit_state`: the state of a proxy, made on first use
unfoldable pub circuit_state : Text → Circuits → Circuit × Circuits
circuit_state pid c = elim (lookup pid c.table) [
  | none ↦ (fresh, record c { table = put pid fresh c.table })
  | some s ↦ (s, c)
]

-- `open_until > now`
unfoldable pub in_backoff : ℕ → Circuit → Bool
in_backoff now s = ltb now s.open_until

-- `min(circuit_max_backoff, (backoff or base) * mult)`
unfoldable pub next_backoff : Config → ℕ → ℕ
next_backoff cfg b =
    min cfg.circuit_max_backoff ((if b == 0 then backoff_base else b) * backoff_mult)

-- the branch of `record_failure` that charges the proxy; the flag says that the circuit opened
unfoldable pub charge : Config → ℕ → Circuit → Circuit × Bool
unfolding in_backoff next_backoff
charge cfg now s =
    if in_backoff now s
    then (record s { consec_fail = 0 }, false)
    else if leb cfg.circuit_threshold (s.consec_fail + 1)
    then (
      record s {
        consec_fail = 0;
        backoff = next_backoff cfg s.backoff;
        open_until = now + next_backoff cfg s.backoff;
      },
      true,
    )
    else (record s { consec_fail = s.consec_fail + 1 }, false)

-- `record_failure` as far as the circuit goes, for a failure that is charged to the proxy
unfoldable pub charge_failure : Config → ℕ → Text → Circuits → Circuits
unfolding charge circuit_state
charge_failure cfg now pid c =
    let (s, c') = circuit_state pid c in
    let (s', opened) = charge cfg now s in
    record c' {
      table = put pid s' c'.table;
      open_count = if opened then c'.open_count + 1 else c'.open_count;
    }

-- `_in_slow_start` at a state that exists
unfoldable pub slow_starting : Config → ℕ → Circuit → Bool
slow_starting cfg now s =
    not (s.started_at == 0)
    && ltb now (s.started_at + cfg.slow_start_window)
    && ltb s.slow_start_ok cfg.slow_start_success

-- `_in_slow_start`
unfoldable pub in_slow_start : Config → ℕ → Text → Circuits → Bool
unfolding slow_starting
in_slow_start cfg now pid c = elim (lookup pid c.table) [
  | none ↦ false
  | some s ↦ slow_starting cfg now s
]

-- the body of `record_success` at a state that exists
unfoldable pub credit : Config → ℕ → Circuit → Circuit
unfolding slow_starting
credit cfg now s =
    if slow_starting cfg now s
    then (if leb cfg.slow_start_success (s.slow_start_ok + 1) && ltb backoff_base s.backoff
        then record s {
          consec_fail = 0;
          slow_start_ok = s.slow_start_ok + 1;
          backoff = max backoff_base (s.backoff / 2);
        }
        else record s { consec_fail = 0; slow_start_ok = s.slow_start_ok + 1 })
    else record s { consec_fail = 0 }

-- `record_success`
unfoldable pub record_success : Config → ℕ → Text → Circuits → Circuits
unfolding credit
record_success cfg now pid c = elim (lookup pid c.table) [
  | none ↦ c
  | some s ↦ record c { table = put pid (credit cfg now s) c.table; version = c.version + 1 }
]

-- `_rearm_slow_start`
unfoldable pub rearm_slow_start : ℕ → Text → Circuits → Circuits
unfolding circuit_state
rearm_slow_start now pid c =
    let (s, c') = circuit_state pid c in
    record c' {
      table = put pid (record s { started_at = now; slow_start_ok = 0; consec_fail = 0 }) c'.table;
      version = c'.version + 1;
    }

-- `is_circuit_open`: an expired backoff is cleared here, once, and the slow start begins
unfoldable pub is_circuit_open : ℕ → Text → Circuits → Bool × Circuits
unfolding rearm_slow_start
is_circuit_open now pid c = elim (lookup pid c.table) [
  | none ↦ (false, c)
  | some s ↦ if s.open_until == 0 then (false, c) else if ltb now s.open_until then (true, c) else (
    false,
    rearm_slow_start now pid (record c { table = put pid (record s { open_until = 0 }) c.table }),
  )
]

-- `reset_circuits`
unfoldable pub reset_circuits : Circuits → Circuits
reset_circuits c = record c { table = []; version = c.version + 1 }

-- `_failure_penalty_mult`, for a penalty weight given in hundredths; the result is in hundredths
unfoldable pub failure_penalty_mult : ℕ → Text → Circuits → ℕ
failure_penalty_mult weight pid c = elim (lookup pid c.table) [
  | none ↦ 100
  | some s ↦ 100 + s.consec_fail * weight
]
