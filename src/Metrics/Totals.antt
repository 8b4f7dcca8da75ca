-- ===== src/Metrics/Totals.antt =====
-- The counters of one bucket agree with one another, and its sample windows are bounded.
use auto_squid.Metrics.{
  ErrorKind, timeout, connect, http_5xx, http_status, tls, protocol, cancelled, other, Metrics,
  obs_window, append_sample, bump_error, observe_ttfb, observe_ofb, observe_failure, clear_last,
  observe_5xx, observe_protocol, rate, sampled, add_totals, observe_complete,
}
use auto_squid.Base.{
  ℕ, zero, suc, ◌+◌, ◌-◌, ◌≤◌, ◌≡◌, refl, ap, List, [], ◌∷◌, ◌++◌, arith, length-append,
  length-drop, nat_eq, Text, text_eq, length, Bool, true, false, if_elim, ◌==◌, pair_eq, option_eq,
}

-- what a bucket is told
pub data Observation : Type 0 where
  ttfb : ℕ → Observation
  ofb : ℕ → Observation
  failure : ErrorKind → Observation
  server_error : Observation
  version : Text → Observation
  complete : Bool → ℕ → ℕ → ℕ → Observation

unfoldable pub observe : Observation → Metrics → Metrics
observe (ttfb t) m = observe_ttfb t m
observe (ofb t) m = observe_ofb t m
observe (failure k) m = observe_failure k m
observe server_error m = observe_5xx m
observe (version v) m = observe_protocol v m
observe (complete tunnel bytes duration first) m = observe_complete tunnel bytes duration first m

unfoldable pub observe_all : List Observation → Metrics → Metrics
observe_all [] m = m
observe_all (o ∷ os) m = observe_all os (observe o m)

-- every server error is reported after the response that it belongs to; `unreported` is the number of
-- recorded responses that may still turn out to be server errors
abbrev pub InOrder : ℕ → List Observation → Type 0
InOrder n [] = Unit
InOrder n (ttfb t ∷ os) = InOrder (suc n) os
InOrder zero (server_error ∷ os) = ⊥
InOrder (suc n) (server_error ∷ os) = InOrder n os
InOrder n (ofb t ∷ os) = InOrder n os
InOrder n (failure k ∷ os) = InOrder n os
InOrder n (version v ∷ os) = InOrder n os
InOrder n (complete tunnel bytes duration first ∷ os) = InOrder n os

abbrev pub error_sum : (ErrorKind → ℕ) → ℕ
error_sum f =
    f timeout + f connect + f http_5xx + f http_status + f tls + f protocol + f cancelled + f other

pub record IsBalanced (unreported : ℕ) (m : Metrics) : Type 0 where
  pub attempts : m.total ≡ m.cum_success + m.cum_failure_transport + m.cum_failure_5xx
  pub responses : m.success ≡ m.cum_success + m.cum_failure_5xx
  pub failures : error_sum m.errors ≡ m.cum_failure_transport + m.cum_failure_5xx
  pub measured : m.cum_ttfb_n ≡ m.success
  pub digested : (length m.cum_ttfb_digest ≡ m.cum_ttfb_n) × (length m.cum_ofb_digest ≡ m.cum_ofb_n)
  pub carried : m.body_bytes ≤ m.total_bytes
  pub pending : unreported ≤ m.cum_success
  pub windows :
      (length m.ttfb_samples ≤ obs_window)
      × (length m.ofb_samples ≤ obs_window)
      × (length m.outcome_samples ≤ obs_window)

error_sum-bump_error :
    (k : ErrorKind) (f : ErrorKind → ℕ) → error_sum (bump_error k f) ≡ error_sum f + 1
unfolding bump_error
error_sum-bump_error timeout f = omega arith
error_sum-bump_error connect f = omega arith
error_sum-bump_error http_5xx f = omega arith
error_sum-bump_error http_status f = omega arith
error_sum-bump_error tls f = omega arith
error_sum-bump_error protocol f = omega arith
error_sum-bump_error cancelled f = omega arith
error_sum-bump_error other f = omega arith

length-append_sample : (xs : List ℕ) (v : ℕ) → length (append_sample xs v) ≤ obs_window
unfolding append_sample
length-append_sample xs v =
    let ys = xs ++ v ∷ [] in omega (arith, length-drop {0} (length ys - obs_window) ys)

length-clear_last : (xs : List ℕ) → length (clear_last xs) ≡ length xs
unfolding clear_last
length-clear_last [] = refl
length-clear_last (x ∷ []) = refl
length-clear_last (x ∷ y ∷ xs) = ap suc (length-clear_last (y ∷ xs))

ttfb-IsBalanced : (t n : ℕ) (m : Metrics) → IsBalanced n m → IsBalanced (suc n) (observe_ttfb t m)
unfolding observe_ttfb
ttfb-IsBalanced t n m h = omega (
  arith,
  length-append_sample m.ttfb_samples t,
  length-append_sample m.outcome_samples 1,
  length-append {0} m.cum_ttfb_digest (t ∷ []),
  h.attempts,
  h.responses,
  h.failures,
  h.measured,
  h.digested,
  h.carried,
  h.pending,
  h.windows,
)

ofb-IsBalanced : (t n : ℕ) (m : Metrics) → IsBalanced n m → IsBalanced n (observe_ofb t m)
unfolding observe_ofb
ofb-IsBalanced t n m h = omega (
  arith,
  length-append_sample m.ofb_samples t,
  length-append {0} m.cum_ofb_digest (t ∷ []),
  h.attempts,
  h.responses,
  h.failures,
  h.measured,
  h.digested,
  h.carried,
  h.pending,
  h.windows,
)

failure-IsBalanced :
    (k : ErrorKind) (n : ℕ) (m : Metrics) → IsBalanced n m → IsBalanced n (observe_failure k m)
unfolding observe_failure
failure-IsBalanced k n m h = omega (
  arith,
  length-append_sample m.outcome_samples 0,
  error_sum-bump_error k m.errors,
  h.attempts,
  h.responses,
  h.failures,
  h.measured,
  h.digested,
  h.carried,
  h.pending,
  h.windows,
)

server_error-IsBalanced :
    (n : ℕ) (m : Metrics) → IsBalanced (suc n) m → IsBalanced n (observe_5xx m)
unfolding observe_5xx
server_error-IsBalanced n m h = omega (
  arith,
  length-clear_last m.outcome_samples,
  error_sum-bump_error http_5xx m.errors,
  h.attempts,
  h.responses,
  h.failures,
  h.measured,
  h.digested,
  h.carried,
  h.pending,
  h.windows,
)

-- what the buckets count of a body that was forwarded
sampled-IsBalanced :
    (tunnel : Bool) (sample bytes duration n : ℕ) (m : Metrics)
    → IsBalanced n m
    → IsBalanced n (add_totals bytes duration (sampled tunnel sample bytes m))
sampled-IsBalanced true sample bytes duration n m h = omega (
  arith, h.attempts, h.responses, h.failures, h.measured, h.digested, h.carried, h.pending,
  h.windows,
)
sampled-IsBalanced false sample bytes duration n m h = omega (
  arith, h.attempts, h.responses, h.failures, h.measured, h.digested, h.carried, h.pending,
  h.windows,
)

totals-IsBalanced :
    (bytes duration n : ℕ) (m : Metrics)
    → IsBalanced n m
    → IsBalanced n (add_totals bytes duration m)
totals-IsBalanced bytes duration n m h = omega (
  arith, h.attempts, h.responses, h.failures, h.measured, h.digested, h.carried, h.pending,
  h.windows,
)

complete-IsBalanced :
    (tunnel : Bool) (bytes duration first n : ℕ) (m : Metrics)
    → IsBalanced n m
    → IsBalanced n (observe_complete tunnel bytes duration first m)
unfolding observe_complete
complete-IsBalanced tunnel bytes duration first n m h =
    if_elim (IsBalanced n) (duration == 0) (λ _. h)
      (λ _.
        if_elim (λ x. IsBalanced n (add_totals bytes duration x)) (bytes == 0)
          (λ _. totals-IsBalanced bytes duration n m h)
          (λ _. sampled-IsBalanced tunnel (rate bytes duration first) bytes duration n m h))

-- From a balanced bucket on, after any observations in which each server error follows the
-- response that it belongs to, the attempts of the bucket are its successes, transport failures
-- and server errors, the classified errors are exactly the failures, no more bytes of bodies
-- are counted than bytes in all, and no window holds more than 256 samples.
pub observe_all-IsBalanced :
    (os : List Observation) (n : ℕ) (m : Metrics)
    → InOrder n os
    → IsBalanced n m
    → (k : ℕ) × IsBalanced k (observe_all os m)
unfolding observe_all observe
observe_all-IsBalanced [] n m o h = (n, h)
observe_all-IsBalanced (ttfb t ∷ os) n m o h =
    observe_all-IsBalanced os (suc n) (observe_ttfb t m) o (ttfb-IsBalanced t n m h)
observe_all-IsBalanced (server_error ∷ os) zero m o h = absurd o
observe_all-IsBalanced (server_error ∷ os) (suc n) m o h =
    observe_all-IsBalanced os n (observe_5xx m) o (server_error-IsBalanced n m h)
observe_all-IsBalanced (ofb t ∷ os) n m o h =
    observe_all-IsBalanced os n (observe_ofb t m) o (ofb-IsBalanced t n m h)
observe_all-IsBalanced (failure k ∷ os) n m o h =
    observe_all-IsBalanced os n (observe_failure k m) o (failure-IsBalanced k n m h)
observe_all-IsBalanced (complete tunnel bytes duration first ∷ os) n m o h =
    observe_all-IsBalanced os n (observe_complete tunnel bytes duration first m) o
      (complete-IsBalanced tunnel bytes duration first n m h)
observe_all-IsBalanced (version v ∷ os) n m o h =
    observe_all-IsBalanced os n (observe_protocol v m) o (
      unfold observe_protocol in
      record {
        attempts = h.attempts;
        responses = h.responses;
        failures = h.failures;
        measured = h.measured;
        digested = h.digested;
        carried = h.carried;
        pending = h.pending;
        windows = h.windows;
      })
