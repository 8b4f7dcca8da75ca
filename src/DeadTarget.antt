-- ===== src/DeadTarget.antt =====
-- The fast failure of targets that no proxy reaches (`_dead_target_active`,
-- `_note_target_race_failure` and `_clear_dead_target` of auto_squid/router.py) and the marks of a
-- proxy that just failed alone (`_degrade_send_proxy`, `_prune_immediate_degraded` and
-- `_is_send_degraded`). Times are microseconds of the monotonic clock, read once in each call; a
-- deadline of 0 is none. The argument `last` is `selector.last_domain_success_ts(domain)`.
pub mod Rounds
pub mod Marking
use auto_squid.Base.{
  ℕ, ◌+◌, Bool, true, false, not, ◌&&◌, ◌||◌, Option, none, some, List, [], ltb, leb, if◌then◌else◌,
  ◌==◌, nat_eq, Text, text_eq, pair_eq, option_eq, set_add,
}
use auto_squid.Dict.Shrink.{shrink}
use auto_squid.Dict.{Dict, size, keep, lookup, put, remove}
use auto_squid.Dict.Laws.{kept}

abbrev pub prove_window : ℕ
prove_window = 60_000_000

abbrev pub max_targets : ℕ
max_targets = 4096

pub record Evidence : Type 0 where
  pub fails : ℕ
  pub prove_until : ℕ
  pub deadline : ℕ

pub record Targets : Type 0 where
  pub ttl : ℕ
  pub table : Dict Text Evidence
  pub marked : ℕ

-- the tests `dead_target_ttl_sec <= 0.0 or not domain`
unfoldable pub is_off : Text → Targets → Bool
is_off domain s = s.ttl == 0 || domain == []

-- `_dead_target_active`
unfoldable pub dead_target_active : Text → ℕ → Targets → Bool × Targets
unfolding is_off
dead_target_active domain now s =
    if is_off domain s then (false, s) else elim (lookup domain s.table) [
      | none ↦ (false, s)
      | some e ↦
          if ltb now e.deadline
          then (true, s)
          else (let e' = if e.deadline == 0 then e else record e { deadline = 0; fails = 0 } in
              let kept = put domain e' s.table in
              (
                false,
                record s { table = if ltb e.prove_until now then remove domain kept else kept },
              ))
    ]

-- the entry that a failed round works on: a new one if there is none or its evidence has lapsed
unfoldable pub evidence : ℕ → Option Evidence → Evidence
evidence now none = record { fails = 0; prove_until = now + prove_window; deadline = 0 }
evidence now (some e) =
    if ltb e.prove_until now
    then record { fails = 0; prove_until = now + prove_window; deadline = 0 }
    else e

-- what the capacity guard can give up at once
unfoldable pub is_lapsed : ℕ → Evidence → Bool
is_lapsed now e = not (e.deadline == 0) && leb e.deadline now || leb e.prove_until now

unfoldable pub bound_targets : ℕ → Dict Text Evidence → Dict Text Evidence
unfolding is_lapsed
bound_targets now t =
    if ltb max_targets (size t)
    then shrink max_targets (λ e. e.prove_until) (keep (λ _ e. not (is_lapsed now e)) t)
    else t

-- `_note_target_race_failure`
unfoldable pub note_target_race_failure : Text → ℕ → ℕ → Targets → Targets
unfolding is_off evidence bound_targets
note_target_race_failure domain last now s =
    if is_off domain s
    then s
    else if ltb now (last + prove_window)
    then record s { table = remove domain s.table }
    else (let e = evidence now (lookup domain s.table) in
        let n = e.fails + 1 in
        if ltb n 2
        then record s {
          table = put domain (record e { fails = n; prove_until = now + prove_window }) s.table;
        }
        else record s {
          marked = s.marked + 1;
          table = bound_targets now (
              put domain
                (record { fails = n; prove_until = now + prove_window; deadline = now + s.ttl })
                s.table);
        })

-- `_clear_dead_target`
unfoldable pub clear_dead_target : Text → Targets → Targets
clear_dead_target domain s = if domain == [] then s else record s { table = remove domain s.table }

-- the marks of pairs of a proxy and a domain
abbrev pub mark_ttl : ℕ
mark_ttl = 60_000_000

abbrev pub max_marks : ℕ
max_marks = 4096

pub record Marks : Type 0 where
  pub until : Dict (Text × Text) ℕ
  pub degraded : List Text
  pub degrades : ℕ

-- `_prune_immediate_degraded`
unfoldable pub prune_immediate_degraded : ℕ → Marks → Marks
prune_immediate_degraded now m = record m {
  until = shrink max_marks (λ t. t) (keep (λ _ t. not (leb t now)) m.until);
}

-- `_degrade_send_proxy`
unfoldable pub degrade_send_proxy : Text → Text → ℕ → Marks → Marks
unfolding prune_immediate_degraded
degrade_send_proxy pid domain now m =
    if ltb now (elim (lookup (pid, domain) m.until) [ none ↦ 0 | some t ↦ t ])
    then m
    else (let m' = record m {
      until = put (pid, domain) (now + mark_ttl) m.until;
      degraded = set_add pid m.degraded;
      degrades = m.degrades + 1;
    } in
        if ltb max_marks (size m'.until) then prune_immediate_degraded now m' else m')

-- `_is_send_degraded`
unfoldable pub is_send_degraded : Text → Text → ℕ → Marks → Bool × Marks
is_send_degraded pid domain now m = elim (lookup (pid, domain) m.until) [
  | none ↦ (false, m)
  | some t ↦
      if leb t now then (false, record m { until = remove (pid, domain) m.until }) else (true, m)
]
