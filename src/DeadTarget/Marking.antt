-- ===== src/DeadTarget/Marking.antt =====
-- How long a proxy that failed alone is kept from serving that domain alone.
use auto_squid.DeadTarget.{
  Marks, mark_ttl, max_marks, prune_immediate_degraded, degrade_send_proxy, is_send_degraded,
}
use auto_squid.Base.{
  pair_eq, ℕ, ◌+◌, ◌≤◌, ◌<◌, ◌≡◌, not, none, some, List, [], ◌∷◌, arith, ltb, leb, if_elim, nat_eq,
  Text, text_eq, beq_refl, set_add,
}
use auto_squid.Dict.Shrink.{size-shrink, Distinct-shrink}
use auto_squid.Dict.{size, keep, lookup, put, Distinct}
use auto_squid.Dict.Laws.{lookup-put, Distinct-put, Distinct-remove, Distinct-keep}
use auto_squid.Dict.Measure.{size-remove, size-put}

-- when the mark of a pair ends, 0 if there is none
abbrev pub mark_of : Text → Text → Marks → ℕ
mark_of pid domain m = elim (lookup (pid, domain) m.until) [ none ↦ 0 | some t ↦ t ]

-- A proxy whose mark has ended or that has none is kept out for exactly the set time after it fails
-- alone for a domain, while the table has room.
pub is_send_degraded-degrade_send_proxy :
    (pid domain : Text) (now t : ℕ) (m : Marks)
    → mark_of pid domain m ≤ now
    → size m.until < max_marks
    → (is_send_degraded pid domain t (degrade_send_proxy pid domain now m)).0
      ≡ ltb t (now + mark_ttl)
unfolding is_send_degraded degrade_send_proxy
is_send_degraded-degrade_send_proxy pid domain now t m over few = ground (
  arith,
  over,
  few,
  lookup-put (pid, domain) (pid, domain) (now + mark_ttl) m.until,
  size-put (pid, domain) (now + mark_ttl) m.until,
  beq_refl {A = Text × Text} (pid, domain),
)

-- each mark once, and no more marks than the table may hold
pub record IsBounded (m : Marks) : Type 0 where
  pub distinct : Distinct m.until
  pub few : size m.until ≤ max_marks

prune-IsBounded :
    (now : ℕ) (m : Marks) → Distinct m.until → IsBounded (prune_immediate_degraded now m)
unfolding prune_immediate_degraded
prune-IsBounded now m h =
    let live = λ (_ : Text × Text) (t : ℕ). not (leb t now) in
    let d = Distinct-keep live m.until h in
    record {
      distinct = Distinct-shrink max_marks (λ t. t) (keep live m.until) d;
      few = size-shrink max_marks (λ t. t) (keep live m.until) d;
    }

degrade_send_proxy-IsBounded :
    (pid domain : Text) (now : ℕ) (m : Marks)
    → IsBounded m
    → IsBounded (degrade_send_proxy pid domain now m)
unfolding degrade_send_proxy
degrade_send_proxy-IsBounded pid domain now m v =
    if_elim IsBounded (ltb now (mark_of pid domain m)) (λ _. v)
      (λ _.
        let m' : Marks = record {
          until = put (pid, domain) (now + mark_ttl) m.until;
          degraded = set_add pid m.degraded;
          degrades = m.degrades + 1;
        } in
        let d = Distinct-put (pid, domain) (now + mark_ttl) m.until v.distinct in
        if_elim IsBounded (ltb max_marks (size m'.until)) (λ _. prune-IsBounded now m' d)
          (λ small. record { distinct = d; few = ground (arith, small) }))

is_send_degraded-IsBounded :
    (pid domain : Text) (now : ℕ) (m : Marks)
    → IsBounded m
    → IsBounded (is_send_degraded pid domain now m).1
unfolding is_send_degraded
is_send_degraded-IsBounded pid domain now m v = record {
  distinct = ground (arith, v.distinct, Distinct-remove (pid, domain) m.until v.distinct);
  few = ground (arith, size-remove (pid, domain) m.until v.distinct, v.few);
}

pub data Call : Type 0 where
  failed : Text → Text → ℕ → Call
  asked : Text → Text → ℕ → Call

unfoldable pub mark_all : List Call → Marks → Marks
mark_all [] m = m
mark_all (failed pid domain now ∷ cs) m = mark_all cs (degrade_send_proxy pid domain now m)
mark_all (asked pid domain now ∷ cs) m = mark_all cs (is_send_degraded pid domain now m).1

-- Whatever proxies fail and are asked for, from such a table on, the table of marks holds each
-- pair once and at most 4096 of them.
pub mark_all-IsBounded : (cs : List Call) (m : Marks) → IsBounded m → IsBounded (mark_all cs m)
unfolding mark_all
mark_all-IsBounded [] m v = v
mark_all-IsBounded (failed pid domain now ∷ cs) m v =
    mark_all-IsBounded cs (degrade_send_proxy pid domain now m)
      (degrade_send_proxy-IsBounded pid domain now m v)
mark_all-IsBounded (asked pid domain now ∷ cs) m v =
    mark_all-IsBounded cs (is_send_degraded pid domain now m).1
      (is_send_degraded-IsBounded pid domain now m v)
