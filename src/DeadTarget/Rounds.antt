-- ===== src/DeadTarget/Rounds.antt =====
-- How many failed rounds make a target dead, and for how long.
use auto_squid.DeadTarget.{
  Evidence, Targets, prove_window, max_targets, is_off, dead_target_active, evidence, is_lapsed,
  bound_targets, note_target_race_failure, clear_dead_target,
}
use auto_squid.Base.{
  ℕ, ◌+◌, ◌≤◌, ◌<◌, ◌≡◌, false, none, arith, ltb, nat_eq, Text, text_eq, beq_refl, refl, ◌∙◌, not,
  some,
}
use auto_squid.Dict.{Dict, size, lookup, Distinct, keep, put}
use auto_squid.Dict.Laws.{lookup-put, lookup-remove, Distinct-put, Distinct-keep}
use auto_squid.Dict.Shrink.{size-shrink}
use auto_squid.Dict.Measure.{size-put}

-- One failed round is not enough: after it, a target of which nothing was known is not answered as
-- dead at any time.
pub note_once :
    (domain : Text) (last now t : ℕ) (s : Targets)
    → lookup domain s.table ≡ none
    → (dead_target_active domain t (note_target_race_failure domain last now s)).0 ≡ false
unfolding dead_target_active note_target_race_failure evidence is_off
note_once domain last now t s new = ground (
  arith,
  new,
  beq_refl domain,
  lookup-put domain domain (record { fails = 1; prove_until = now + prove_window; deadline = 0 })
      s.table,
  lookup-remove domain domain s.table,
)

bound_targets_few :
    (now : ℕ) (t : Dict Text Evidence) → size t ≤ max_targets → bound_targets now t ≡ t
unfolding bound_targets
bound_targets_few now t h = ground (arith, h)

is_off_table :
    (domain : Text) (s : Targets) (t : Dict Text Evidence)
    → is_off domain (record s { table = t }) ≡ is_off domain s
unfolding is_off
is_off_table domain s t = refl

abbrev first_failure : ℕ → Evidence
first_failure now = record { fails = 1; prove_until = now + prove_window; deadline = 0 }

abbrev second_failure : ℕ → ℕ → Evidence
second_failure ttl now = record {
  fails = 2;
  prove_until = now + prove_window;
  deadline = now + ttl;
}

note_first :
    (domain : Text) (last now : ℕ) (s : Targets)
    → lookup domain s.table ≡ none
    → is_off domain s ≡ false
    → last + prove_window ≤ now
    → note_target_race_failure domain last now s
      ≡ record s { table = put domain (first_failure now) s.table }
unfolding note_target_race_failure evidence
note_first domain last now s new on quiet = ground (arith, new, on, quiet)

note_second :
    (domain : Text) (last first now : ℕ) (s : Targets)
    → lookup domain s.table ≡ some (first_failure first)
    → is_off domain s ≡ false
    → last + prove_window ≤ now
    → now ≤ first + prove_window
    → size s.table ≤ max_targets
    → note_target_race_failure domain last now s
      ≡ record s { marked = s.marked + 1; table = put domain (second_failure s.ttl now) s.table }
unfolding note_target_race_failure evidence
note_second domain last first now s old on quiet near few = ground (
  arith,
  old,
  on,
  quiet,
  near,
  bound_targets_few now (put domain (second_failure s.ttl now) s.table),
  size-put domain (second_failure s.ttl now) s.table,
  few,
)

active_second :
    (domain : Text) (second t : ℕ) (s : Targets)
    → is_off domain s ≡ false
    → lookup domain s.table ≡ some (second_failure s.ttl second)
    → (dead_target_active domain t s).0 ≡ ltb t (second + s.ttl)
unfolding dead_target_active
active_second domain second t s on now = ground (arith, on, now)

-- Two failed rounds at most the window apart make a target dead for exactly the set time, if at
-- either the last success seen of it, or the zero of the monotonic clock if none was seen, is at least
-- the window ago. This holds for a target without evidence so far, while the gate is on and the
-- table has room.
pub note_twice :
    (domain : Text) (last first again second t : ℕ) (s : Targets)
    → lookup domain s.table ≡ none
    → is_off domain s ≡ false
    → last + prove_window ≤ first
    → again + prove_window ≤ second
    → second ≤ first + prove_window
    → size s.table < max_targets
    → (dead_target_active domain t (
        note_target_race_failure domain again second
          (note_target_race_failure domain last first s))).0
      ≡ ltb t (second + s.ttl)
unfolding put is_off
note_twice domain last first again second t s new on quiet quiet' near few =
    let s1 : Targets = record s { table = put domain (first_failure first) s.table } in
    let s2 : Targets = record s1 {
      marked = s1.marked + 1;
      table = put domain (second_failure s.ttl second) s1.table;
    } in
    let there : lookup domain s1.table ≡ some (first_failure first) =
      ground (arith, lookup-put domain domain (first_failure first) s.table, beq_refl domain) in
    let full : lookup domain s2.table ≡ some (second_failure s.ttl second) =
      ground
        (arith, lookup-put domain domain (second_failure s.ttl second) s1.table, beq_refl domain) in
    let room : size s1.table ≤ max_targets =
      ground (arith, size-put domain (first_failure first) s.table, new, few) in
    rw (note_first domain last first s new on quiet) (
      rw
        (note_second domain again first second s1 there (is_off_table domain s s1.table ∙ on) quiet'
          near room)
        (active_second domain second t s2 (is_off_table domain s s1.table ∙ on) full))

bound_targets_bound :
    (now : ℕ) (t : Dict Text Evidence) → Distinct t → size (bound_targets now t) ≤ max_targets
unfolding bound_targets
bound_targets_bound now t h =
    let lapsed = λ (_ : Text) (e : Evidence). not (is_lapsed now e) in
    ground (
      arith,
      size-shrink max_targets (λ e. e.prove_until) (keep lapsed t) (Distinct-keep lapsed t h),
    )

-- The table, which must hold each target once, is within its capacity whenever a target has just
-- been marked.
pub note_target_race_failure_bound :
    (domain : Text) (last now : ℕ) (s : Targets)
    → Distinct s.table
    → s.marked < (note_target_race_failure domain last now s).marked
    → size (note_target_race_failure domain last now s).table ≤ max_targets
unfolding note_target_race_failure
note_target_race_failure_bound domain last now s h marked =
    let e : Evidence = record {
      fails = (evidence now (lookup domain s.table)).fails + 1;
      prove_until = now + prove_window;
      deadline = now + s.ttl;
    } in
    ground (
      arith,
      marked,
      bound_targets_bound now (put domain e s.table) (Distinct-put domain e s.table h),
    )

-- A target that a request reached is answered as alive, whatever was held against it.
pub dead_target_active-clear_dead_target :
    (domain : Text) (t : ℕ) (s : Targets)
    → (dead_target_active domain t (clear_dead_target domain s)).0 ≡ false
unfolding dead_target_active clear_dead_target is_off
dead_target_active-clear_dead_target domain t s =
    ground (arith, lookup-remove domain domain s.table, beq_refl domain)
