-- ===== src/InFlight.antt =====
-- The requests in flight of each proxy (`_inflight_start` and `_inflight_finish` of
-- auto_squid/selector.py).
pub mod Counts
use auto_squid.Base.{
  ℕ, ◌+◌, ◌-◌, Option, none, some, ltb, if◌then◌else◌, ◌==◌, nat_eq, Text, text_eq, pair_eq,
}
use auto_squid.Dict.{Dict, lookup, put, remove}

pub record InFlight : Type 0 where
  pub counts : Dict Text ℕ
  pub version : ℕ
  pub max_in_flight : ℕ

abbrev pub or_zero : Option ℕ → ℕ
or_zero none = 0
or_zero (some n) = n

-- `self._in_flight.get(pid, 0)`
unfoldable pub active : Text → InFlight → ℕ
active pid f = or_zero (lookup pid f.counts)

-- `_inflight_start`
unfoldable pub inflight_start : Text → InFlight → InFlight
unfolding active
inflight_start pid f =
    let n = active pid f + 1 in
    record f {
      counts = put pid n f.counts;
      version = f.version + 1;
      max_in_flight = if ltb f.max_in_flight n then n else f.max_in_flight;
    }

-- `_inflight_finish`
unfoldable pub inflight_finish : Text → InFlight → InFlight
unfolding active
inflight_finish pid f =
    let n = active pid f - 1 in
    record f {
      counts = if n == 0 then remove pid f.counts else put pid n f.counts;
      version = f.version + 1;
    }
