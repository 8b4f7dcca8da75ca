-- ===== src/Selector/Attribution.antt =====
-- When a failure counts against the target and not against the proxy.
use auto_squid.Selector.{
  dead_window, max_domains, is_recent, failed_at, prune_domain_fail, is_target_level_failure,
  latest, or_none, Quality, latest_ts, last_domain_success_ts,
}
use auto_squid.Base.{
  ℕ, suc, ◌+◌, ◌≤◌, ◌≡◌, refl, ap, Bool, true, not, ◌&&◌, ◌||◌, [], ◌∷◌, arith, leb, ◌==◌, nat_eq,
  Text, text_eq, pair_eq, option_eq, ◌∙◌, Option, none, some,
}
use auto_squid.Dict.Shrink.{size-shrink}
use auto_squid.Dict.{Dict, size, keep, lookup, put, remove, Distinct}
use auto_squid.Dict.Laws.{Distinct-put, Distinct-keep}
use auto_squid.Dict.Measure.{size-remove, size-put}

-- the other proxies that failed for the domain in the last ten seconds
abbrev pub other_failures : Text → ℕ → Dict Text ℕ → Dict Text ℕ
other_failures pid now d = keep (λ p t. leb now (t + 10_000_000) && not (p == pid)) d

remove-keep :
    (pid : Text) (p : Text → ℕ → Bool) (d : Dict Text ℕ)
    → remove pid (keep p d) ≡ keep (λ k t. p k t && not (k == pid)) d
unfolding remove keep
remove-keep pid p [] = refl
remove-keep pid p ((k, t) ∷ d) = ground (arith, remove-keep pid p d)

keep-recent :
    (pid : Text) (now : ℕ) (d : Dict Text ℕ)
    → keep (λ p t. is_recent now p t && not (p == pid)) d ≡ other_failures pid now d
unfolding keep is_recent
keep-recent pid now [] = refl
keep-recent pid now ((k, t) ∷ d) = ground (arith, keep-recent pid now d)

-- every success seen is ten seconds old, and so is the clock
abbrev pub is_quiet : ℕ → Dict Text Quality → Bool
is_quiet now [] = leb 10_000_000 now
is_quiet now ((p, e) ∷ d) = leb (e.ts + 10_000_000) now && is_quiet now d

abbrev pub was_quiet : ℕ → Option (Dict Text Quality) → Bool
was_quiet now none = leb 10_000_000 now
was_quiet now (some d) = is_quiet now d

quiet_lem : (now : ℕ) (d : Dict Text Quality) → leb (latest_ts d + dead_window) now ≡ is_quiet now d
unfolding latest_ts
quiet_lem now [] = refl
quiet_lem now ((p, e) ∷ d) = ground (arith, quiet_lem now d)

was_quiet_lem :
    (domain : Text) (now : ℕ) (q : Dict Text (Dict Text Quality))
    → leb (last_domain_success_ts domain q + dead_window) now ≡ was_quiet now (lookup domain q)
unfolding last_domain_success_ts
was_quiet_lem domain now q =
    elim (lookup domain q)
      as (λ o.
        leb (elim o [ none ↦ 0 | some d ↦ latest_ts d ] + dead_window) now ≡ was_quiet now o) [
          | none ↦ refl
          | some d ↦ quiet_lem now d
        ]

size-failed_at :
    (pid domain : Text) (now : ℕ) (t : Dict Text (Dict Text ℕ))
    → Distinct (or_none (lookup domain t))
    → size (failed_at pid domain now t)
      ≡ suc (size (other_failures pid now (or_none (lookup domain t))))
unfolding failed_at
size-failed_at pid domain now t h =
    let d = or_none (lookup domain t) in
    let live = keep (is_recent now) d in
    let gone = ap size (remove-keep pid (is_recent now) d ∙ keep-recent pid now d) in
    ground
      (arith, size-put pid now live, size-remove pid live (Distinct-keep (is_recent now) d h), gone)

-- A failure is put down to the target exactly when at least two other proxies failed for the same
-- domain in the last ten seconds, every success seen there is at least ten seconds old, and the
-- monotonic clock shows at least ten seconds. Each proxy must stand once in the table of the domain.
pub is_target_level_failure_lem :
    (pid domain : Text) (now : ℕ) (q : Dict Text (Dict Text Quality)) (t : Dict Text (Dict Text ℕ))
    → Distinct (or_none (lookup domain t))
    → (is_target_level_failure pid domain now q t).0 ≡ (
        leb 2 (size (other_failures pid now (or_none (lookup domain t))))
        && was_quiet now (lookup domain q))
unfolding is_target_level_failure
is_target_level_failure_lem pid domain now q t h =
    ground (arith, size-failed_at pid domain now t h, was_quiet_lem domain now q)

-- Whenever a failure is put down to the target the table of attributions, which must hold each
-- domain once, is within its capacity.
pub is_target_level_failure_bound :
    (pid domain : Text) (now : ℕ) (q : Dict Text (Dict Text Quality)) (t : Dict Text (Dict Text ℕ))
    → Distinct t
    → (is_target_level_failure pid domain now q t).0 ≡ true
    → size (is_target_level_failure pid domain now q t).1 ≤ max_domains
unfolding is_target_level_failure prune_domain_fail
is_target_level_failure_bound pid domain now q t h dead =
    let noted = put domain (failed_at pid domain now t) t in
    let live =
      λ (_ : Text) (d : Dict Text ℕ). not (size d == 0 || leb (latest d + dead_window) now) in
    ground (
      arith,
      dead,
      size-shrink max_domains latest (keep live noted)
          (Distinct-keep live noted (Distinct-put domain (failed_at pid domain now t) t h)),
    )
