-- ===== src/Forwarding.antt =====
-- Sending a plain request through one proxy and handing its answer on (`_forward_single`,
-- `_observe_single_send`, `_observe_single_send_failure` and `_observe_win` of auto_squid/router.py), on
-- top of Attempts, Streaming, the metrics, the tuner and the cache. Log lines are left out,
-- and so is the cancellation of a request while its answer is streamed.
pub mod Caching
use auto_squid.Base.{
  ℕ, ◌+◌, Bool, false, not, ◌&&◌, Option, none, some, List, leb, if◌then◌else◌, ◌==◌, nat_eq, Text,
  text_eq, pair_eq, option_eq, text,
}
use auto_squid.Attempts.{World, Settings, Result, done, raised, try_http}
use auto_squid.Failures.{Exception, other, is_cancelled}
use auto_squid.Metrics.{Store, record_complete, record_http_error, record_protocol}
use auto_squid.HttpCache.{HttpCache, http_cache_set, cacheable_status}
use auto_squid.Streaming.{Writer, Upstream, Client, Streamed, stream_upstream_response}
use auto_squid.Tuner.{Tuner, observe}

-- what a request can change here; `slow_log` is `single_send_slow_log_ms`
pub record Front : Type 0 where
  pub world : World
  pub cache : HttpCache
  pub tuner : Tuner
  pub sticky_cache_hits : ℕ
  pub domain_cache_hits : ℕ
  pub slow_log : ℕ
  pub single_send_slow_logged : ℕ
  pub single_send_fail_logged : ℕ

-- the request, and whether a 5xx is to be tried elsewhere
pub record Request : Type 0 where
  pub method : Text
  pub url : Text
  pub headers : List (Text × Text)
  pub domain : Text
  pub retry_on_5xx : Bool

-- a single send to the sticky or to the cached proxy, or the answer of a race
pub data Source : Type 0 where
  sticky cached won : Source

-- what the network and the clocks do, and the random index of the tuner
pub record Course : Type 0 where
  pub sent : Option Exception
  pub ttfb : ℕ
  pub elapsed : ℕ
  pub upstream : Upstream
  pub body_duration : ℕ
  pub now : ℕ
  pub pick : ℕ

pub data Outcome : Type 0 where
  answered : ℕ → Outcome
  failed : Exception → Outcome

-- `elapsed_ms >= self.single_send_slow_log_ms`, which is off at 0
abbrev pub is_slow : Front → ℕ → Bool
is_slow f elapsed = not (f.slow_log == 0) && leb f.slow_log elapsed

unfoldable pub observe_single_send : ℕ → Front → Front
observe_single_send elapsed f =
    if is_slow f elapsed
    then record f { single_send_slow_logged = f.single_send_slow_logged + 1 }
    else f

unfoldable pub observe_single_send_failure : ℕ → Front → Front
observe_single_send_failure elapsed f =
    if is_slow f elapsed
    then record f { single_send_fail_logged = f.single_send_fail_logged + 1 }
    else f

-- `_observe_win`, on the mark that the attempt left
unfoldable pub observe_win : ℕ → Front → Front
observe_win pick f = elim f.world.stash [
  | none ↦ f
  | some ttfb ↦ record f { tuner = observe pick ttfb f.tuner }
]

abbrev pub count_hit : Source → Front → Front
count_hit sticky f = record f { sticky_cache_hits = f.sticky_cache_hits + 1 }
count_hit cached f = record f { domain_cache_hits = f.domain_cache_hits + 1 }
count_hit won f = f

abbrev pub with_metrics : (Store → Store) → Front → Front
with_metrics g f = record f {
  world = record f.world {
    selector = record f.world.selector { metrics = g f.world.selector.metrics };
  };
}

-- the observations of an answer that was streamed
abbrev pub observed : Request → Text → Course → Streamed → Store → Store
observed r pid k s m =
    let m1 =
      if k.body_duration == 0
      then m
      else record_complete false pid s.total_streamed k.body_duration 0 (some r.domain) m in
    let m2 = record_http_error pid k.upstream.status_code (some r.domain) m1 in
    record_protocol pid k.upstream.http_version (some r.domain) m2

module _ (hostname : Text → Option Text) (w : Writer) (client : Client) (limit : ℕ) where
  abbrev pub kept : Request → Course → Option Text → HttpCache → HttpCache
  kept r k none c = c
  kept r k (some b) c =
      if cacheable_status k.upstream.status_code
      then http_cache_set hostname r.method r.url k.upstream.status_code k.upstream.reason_phrase
          k.upstream.headers b r.headers k.now c
      else c

  abbrev pub streamed : Request → Course → Streamed
  streamed r k = stream_upstream_response w client limit r.method k.upstream

  -- the part of `_forward_single` after the answer's head
  unfoldable pub hand_on : Request → Text → Course → Front → Outcome × Front
  hand_on r pid k f =
      if r.retry_on_5xx && leb 500 k.upstream.status_code
      then (
        failed (other (text "auto_squid.router") (text "_UpstreamServerError")),
        with_metrics (record_http_error pid k.upstream.status_code (some r.domain)) f,
      )
      else (
        answered k.upstream.status_code,
        record (with_metrics (observed r pid k (streamed r k)) f) {
          cache = kept r k (streamed r k).buffered f.cache;
        },
      )

  abbrev pub after_attempt :
      Request → Source → Text → Course → Front → Result × World → Outcome × Front
  after_attempt r source pid k f (raised e, v) =
      let g = record f { world = v } in
      (failed e, if is_cancelled e then g else observe_single_send_failure k.elapsed g)
  after_attempt r source pid k f (done, v) = hand_on r pid k (
      count_hit source
        (observe_win k.pick (observe_single_send k.elapsed (record f { world = v }))))

  -- `_forward_single`
  unfoldable pub forward_single :
      Settings → Request → Source → Text → Course → Front → Outcome × Front
  unfolding hand_on observe_single_send observe_single_send_failure observe_win
  forward_single c r won pid k f = hand_on r pid k f
  forward_single c r sticky pid k f =
      after_attempt r sticky pid k f (try_http c pid r.domain k.sent k.ttfb k.now f.world)
  forward_single c r cached pid k f =
      after_attempt r cached pid k f (try_http c pid r.domain k.sent k.ttfb k.now f.world)
