-- ===== src/Attempts.antt =====
-- One attempt of a candidate through an upstream (`_try_http`, `_try_tunnel`, `_try_tunnel_host`,
-- `_record_attempt` and `_stash_attempt_ttfb` of auto_squid/router.py). What the network does is the
-- record `Round`; connections are taken from the pools by auto_squid/pools.py, and `pooled` says if one
-- was there. Log lines and the closing of connections are left out.
pub mod Tunnels
pub mod Balance
pub mod Refusals
use auto_squid.Base.{
  ℕ, ◌+◌, Bool, true, Option, none, some, [], if◌then◌else◌, nat_eq, Text, text_eq,
}
use auto_squid.Circuit
use auto_squid.Concurrency
use auto_squid.Circuit.{record_success}
use auto_squid.InFlight.{InFlight, inflight_start, inflight_finish}
use auto_squid.Metrics.{record_stale_conn}
use auto_squid.Selector.{Selector, record_failure, record_ttfb}
use auto_squid.Failures.{Exception, is_cancelled, classify_error}
use auto_squid.Dict.{Dict, lookup, put}

-- the parts of the router that an attempt writes; `stash` is the mark on the task
pub record World : Type 0 where
  pub selector : Selector
  pub inflight : InFlight
  pub attempted_counts : Dict Text ℕ
  pub request_counts : Dict Text ℕ
  pub upstream_attempts : ℕ
  pub stats_cache : Dict Text (Dict Text ℕ)
  pub stats_dirty : Bool
  pub connect_new_conns : ℕ
  pub stash : Option ℕ

pub record Settings : Type 0 where
  pub circuit : Circuit.Config
  pub concurrency : Concurrency.Config

pub data Result : Type 0 where
  done : Result
  raised : Exception → Result

abbrev pub count : Text → Dict Text ℕ → ℕ
count pid t = elim (lookup pid t) [ none ↦ 0 | some n ↦ n ]

abbrev pub bump : Text → Dict Text ℕ → Dict Text ℕ
bump pid t = put pid (count pid t + 1) t

abbrev pub per_domain : Option (Dict Text ℕ) → Dict Text ℕ
per_domain none = []
per_domain (some t) = t

-- `_record_attempt`
unfoldable pub record_attempt : Text → Text → World → World
record_attempt domain pid w = record w {
  stats_cache = put domain (bump pid (per_domain (lookup domain w.stats_cache))) w.stats_cache;
  stats_dirty = true;
}

abbrev pub start : Text → World → World
start pid w = record w { inflight = inflight_start pid w.inflight }

abbrev pub finish : Text → World → World
finish pid w = record w { inflight = inflight_finish pid w.inflight }

abbrev pub count_attempt : Text → World → World
count_attempt pid w = record w {
  attempted_counts = bump pid w.attempted_counts;
  upstream_attempts = w.upstream_attempts + 1;
}

-- what an answer in time is worth: `record_ttfb` up to `record_success`
unfoldable pub succeed : Settings → Text → Text → ℕ → ℕ → World → World
unfolding record_attempt
succeed c pid domain ttfb now w =
    let s = record_ttfb c.concurrency pid ttfb (some domain) now w.selector in
    let v =
      record_attempt domain pid
        (record w { stash = some ttfb; request_counts = bump pid w.request_counts }) in
    record v { selector = record s { circuits = record_success c.circuit now pid s.circuits } }

-- the failure is charged, unless the attempt was cancelled
unfoldable pub charge : Settings → Text → Text → Exception → ℕ → World → World
charge c pid domain e now w = if is_cancelled e then w else record w {
  selector =
      record_failure c.circuit c.concurrency pid (some (classify_error e)) (some domain) now
        w.selector;
}

-- `_try_http`: `sent` is what `client.send` raises, if it raises; the response itself stays with the
-- caller
unfoldable pub try_http : Settings → Text → Text → Option Exception → ℕ → ℕ → World → Result × World
unfolding succeed charge
try_http c pid domain sent ttfb now w =
    let v = count_attempt pid (start pid w) in
    elim sent [
      | none ↦ (done, finish pid (succeed c pid domain ttfb now v))
      | some e ↦ (raised e, finish pid (charge c pid domain e now v))
    ]
