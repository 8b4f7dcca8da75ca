-- ===== src/InFlight/Counts.antt =====
-- The counters against the history of attempts.
use auto_squid.InFlight.{InFlight, active, inflight_start, inflight_finish, or_zero}
use auto_squid.Base.{
  ℕ, ◌+◌, ◌-◌, ◌≤◌, ◌≡◌, refl, ap, ◌∙◌, some, List, [], ◌∷◌, arith, if◌then◌else◌, ◌==◌, nat_eq,
  Text, text_eq, text_beq_iff, pair_eq, option_eq,
}
use auto_squid.Dict.{lookup}
use auto_squid.Dict.Laws.{lookup-put, lookup-remove, lookup-nil}

pub data Event : Type 0 where
  started : Text → Event
  finished : Text → Event

unfoldable pub run : List Event → InFlight → InFlight
run [] f = f
run (started pid ∷ es) f = run es (inflight_start pid f)
run (finished pid ∷ es) f = run es (inflight_finish pid f)

-- the attempts of one proxy that are open after a history, counted on their own
pub open_after : Text → List Event → ℕ → ℕ
open_after pid [] n = n
open_after pid (started q ∷ es) n = open_after pid es (if q == pid then n + 1 else n)
open_after pid (finished q ∷ es) n = open_after pid es (if q == pid then n - 1 else n)

pub active-inflight_start :
    (q pid : Text) (f : InFlight)
    → active q (inflight_start pid f) ≡ (if pid == q then active q f + 1 else active q f)
unfolding active inflight_start
active-inflight_start q pid f =
    ground
      (arith, lookup-put pid q (or_zero (lookup pid f.counts) + 1) f.counts, text_beq_iff pid q)

pub active-inflight_finish :
    (q pid : Text) (f : InFlight)
    → active q (inflight_finish pid f) ≡ (if pid == q then active q f - 1 else active q f)
unfolding active inflight_finish
active-inflight_finish q pid f = ground (
  arith,
  lookup-put pid q (or_zero (lookup pid f.counts) - 1) f.counts,
  lookup-remove pid q f.counts,
  text_beq_iff pid q,
)

-- After any history of attempts each proxy's counter is the number of its own attempts that are
-- open, never negative, whatever the others do.
pub active-run :
    (es : List Event) (q : Text) (f : InFlight) → active q (run es f) ≡ open_after q es (active q f)
unfolding run open_after
active-run [] q f = refl
active-run (started pid ∷ es) q f =
    active-run es q (inflight_start pid f) ∙ ap (open_after q es) (active-inflight_start q pid f)
active-run (finished pid ∷ es) q f =
    active-run es q (inflight_finish pid f) ∙ ap (open_after q es) (active-inflight_finish q pid f)

-- the table holds no zero, and the high-water mark bounds every counter
pub record IsCounted (f : InFlight) : Type 0 where
  pub positive : (q : Text) (n : ℕ) → lookup q f.counts ≡ some n → 1 ≤ n
  pub bounded : (q : Text) (n : ℕ) → lookup q f.counts ≡ some n → n ≤ f.max_in_flight

inflight_start-IsCounted :
    (pid : Text) (f : InFlight) → IsCounted f → IsCounted (inflight_start pid f)
unfolding inflight_start active
inflight_start-IsCounted pid f h = record {
  positive = λ q n e.
      ground (arith, lookup-put pid q (or_zero (lookup pid f.counts) + 1) f.counts, h.positive q n);
  bounded = λ q n e.
      ground (arith, lookup-put pid q (or_zero (lookup pid f.counts) + 1) f.counts, h.bounded q n);
}

inflight_finish-IsCounted :
    (pid : Text) (f : InFlight) → IsCounted f → IsCounted (inflight_finish pid f)
unfolding inflight_finish active
inflight_finish-IsCounted pid f h = record {
  positive = λ q n e. ground (
    arith,
    lookup-put pid q (or_zero (lookup pid f.counts) - 1) f.counts,
    lookup-remove pid q f.counts,
    h.positive q n,
  );
  bounded = λ q n e. ground (
    arith,
    lookup-put pid q (or_zero (lookup pid f.counts) - 1) f.counts,
    lookup-remove pid q f.counts,
    h.bounded q n,
    h.bounded pid (or_zero (lookup pid f.counts)),
  );
}

pub run-IsCounted : (es : List Event) (f : InFlight) → IsCounted f → IsCounted (run es f)
unfolding run
run-IsCounted [] f h = h
run-IsCounted (started pid ∷ es) f h =
    run-IsCounted es (inflight_start pid f) (inflight_start-IsCounted pid f h)
run-IsCounted (finished pid ∷ es) f h =
    run-IsCounted es (inflight_finish pid f) (inflight_finish-IsCounted pid f h)

-- before any attempt
abbrev pub idle : InFlight
idle = record { counts = []; version = 0; max_in_flight = 0 }

-- From an empty table on, no history of attempts leaves a counter at zero in the table or above the
-- high-water mark.
pub run-bounded :
    (es : List Event) (q : Text) (n : ℕ)
    → lookup q (run es idle).counts ≡ some n
    → (1 ≤ n) × (n ≤ (run es idle).max_in_flight)
run-bounded es q n found =
    let start : IsCounted idle = record {
      positive = λ p m e. ground (arith, e, lookup-nil {V = ℕ} p);
      bounded = λ p m e. ground (arith, e, lookup-nil {V = ℕ} p);
    } in
    let h = run-IsCounted es idle start in (h.positive q n found, h.bounded q n found)
