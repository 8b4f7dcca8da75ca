-- ===== src/Tests/Upstreams.antt =====
-- Attempts, digests and answers of upstreams, at concrete inputs.
use auto_squid.Base.{
  ◌≡◌, refl, true, false, Option, none, some, [], ◌∷◌, nat_eq, Text, text_eq, text_beq, text,
  starts_with, split_once,
}
use auto_squid.Requests.{ℤ}
use auto_squid.Circuit
use auto_squid.Circuit.Backoff.{untouched}
use auto_squid.InFlight.Counts.{idle}
use auto_squid.Concurrency
use auto_squid.Metrics.{Store}
use auto_squid.Failures.{os_error}
use auto_squid.Attempts.{World, Settings, raised}
use auto_squid.Attempts.Tunnels.{Round, Route, try_tunnel}
use auto_squid.Attempts.Balance.{IsOver, try_tunnel-IsOver}
use auto_squid.Attempts.Refusals.{refusal, IsUncharged, try_tunnel_refused}
use auto_squid.Digest.{Floats, new_digest}
use auto_squid.Digest.Summary.{IsSummary, seen, run, sample, question, run-IsSummary}

-- no two centroids are merged by the scale, and a merger keeps the first mean
abbrev coarse : Floats
coarse = record { span_fits = λ n a b. false; blend = λ m w n v. m }

run-IsSummary_example :
    IsSummary
      (seen (sample 5 ∷ sample 3 ∷ question ∷ sample 9 ∷ []) [])
      (run coarse (sample 5 ∷ sample 3 ∷ question ∷ sample 9 ∷ []) new_digest)
run-IsSummary_example = run-IsSummary coarse (sample 5 ∷ sample 3 ∷ question ∷ sample 9 ∷ [])

abbrev pub settings : Settings
settings = record {
  circuit = Circuit.make_config 3 300_000_000 60_000_000 3;
  concurrency = Concurrency.make_config true 8 2 32 1 1 2 4;
}

abbrev quiet : Store
quiet = record {
  proxy_metrics = [];
  domain_metrics = [];
  version = 0;
  dirty_keys = [];
  delete_keys = [];
  full_rewrite = false;
  stale_conn_retries = 0;
}

abbrev pub world : World
world = record {
  selector = record {
    circuits = untouched;
    concs = [];
    domain_fail = [];
    quality = [];
    domain_quality = [];
    metrics = quiet;
    failures_target_level = 0;
  };
  inflight = idle;
  attempted_counts = [];
  request_counts = [];
  upstream_attempts = 0;
  stats_cache = [];
  stats_dirty = false;
  connect_new_conns = 0;
  stash = none;
}

abbrev route : Route
route = record {
  pid = text "a";
  target = text "h:443";
  is_direct = false;
  conn_pool_enabled = true;
}

-- the pooled connection was closed by the proxy, and a new one is refused by the target
abbrev dead : Round
dead = record {
  pooled = true;
  open_error = none;
  drain_error = none;
  line_error = some os_error;
  line = [];
  head_error = none;
  ttfb = 0;
  now = 5;
}

abbrev denied : Round
denied = record dead { line_error = none; line = text "HTTP/1.1 403 Forbidden" }

abbrev no_int : Text → Option ℤ
no_int t = none

try_tunnel-IsOver_example :
    IsOver settings route world (try_tunnel no_int settings route dead denied world)
try_tunnel-IsOver_example = try_tunnel-IsOver settings route no_int dead denied world

try_tunnel_refused_example :
    ((try_tunnel no_int settings route denied dead world).0 ≡ some (raised (refusal denied.line)))
    × IsUncharged world.selector (try_tunnel no_int settings route denied dead world).1.selector
unfolding text_beq split_once starts_with
try_tunnel_refused_example =
    try_tunnel_refused settings route no_int denied dead world refl
      (refl, refl, refl, refl, refl, refl)

-- the stale connection is replaced, and both rounds are counted
retried : (try_tunnel no_int settings route dead denied world).1.upstream_attempts ≡ 2
unfolding try_tunnel text_beq split_once starts_with auto_squid.Failures.is_stale_conn_error
    auto_squid.Attempts.charge
retried = refl
