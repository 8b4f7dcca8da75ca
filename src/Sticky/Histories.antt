-- ===== src/Sticky/Histories.antt =====
-- The invariant of the stickiness table, over any sequence of calls.
use auto_squid.Sticky.{
  Entry, Sticky, Router, sticky_key, evict_sticky, prune_sticky, make_room, record_sticky,
  bump_sticky, get_sticky_proxy, judge_quality, is_unfit, sticky_degrade_due,
}
use auto_squid.Sticky.Order.{
  Before, Ordered, Before-remove, Ordered-remove, Ordered-snoc, Before-snoc, Before-≤,
}
use auto_squid.Sticky.Validity.{
  IsValid, evict_sticky_key-IsValid, prune_sticky-IsValid, later-IsValid,
}
use auto_squid.Sticky.Room.{make_room-HasRoom}
use auto_squid.Base.{
  ℕ, suc, ◌+◌, ◌≤◌, max, ◌≡◌, refl, sym, inl, inr, not, Option, none, some, List, [], ◌∷◌, arith,
  Option-cases, if_elim, subst, nat_eq, Text, text_eq,
}
use auto_squid.Dict.{size, lookup, put, remove, move_to_end, has_key, Distinct}
use auto_squid.Dict.Laws.{Distinct-put, Distinct-move_to_end, move_to_end-put}
use auto_squid.Dict.Measure.{size-move_to_end, size-put}

-- a session written with the time of the call goes to the end
written-IsValid :
    (now : ℕ) (key : Text) (e : Entry) (s : Sticky)
    → e.updated_mono ≡ now
    → (lookup key s.cache ≡ none → suc (size s.cache) ≤ max 1 s.max_entries)
    → IsValid now s
    → IsValid now (record s { cache = move_to_end key (put key e s.cache) })
written-IsValid now key e s at room v =
    let d = Distinct-put key e s.cache v.distinct in
    let last = move_to_end-put key e s.cache v.distinct in
    let gone = Before-remove now key s.cache v.before in
    let le : now ≤ e.updated_mono = ground (arith, at) in
    let ge : e.updated_mono ≤ now = ground (arith, at) in
    record {
      distinct = Distinct-move_to_end key (put key e s.cache) d;
      ordered = subst Ordered (sym last) (
          Ordered-snoc key e (remove key s.cache) (Ordered-remove key s.cache v.ordered)
            (Before-≤ now e.updated_mono (remove key s.cache) le gone));
      before = subst (Before now) (sym last) (Before-snoc now key e (remove key s.cache) gone ge);
      few = elim (Option-cases (lookup key s.cache)) [
        | inl miss ↦ ground (
          arith,
          size-move_to_end key (put key e s.cache) d,
          size-put key e s.cache,
          miss,
          room miss,
        )
        | inr (old, hit) ↦
            ground (
              arith,
              size-move_to_end key (put key e s.cache) d,
              size-put key e s.cache,
              hit,
              v.few,
            )
      ];
    }

make_room_fresh :
    (r : Router) (key : Text) (now : ℕ) (s : Sticky)
    → IsValid now s
    → lookup key (make_room r key now s).cache ≡ none
    → suc (size (make_room r key now s).cache) ≤ max 1 (make_room r key now s).max_entries
unfolding make_room has_key
make_room_fresh r key now s v miss = elim (Option-cases (lookup key s.cache)) [
  | inl absent ↦ (make_room-HasRoom r key now s v).room absent
  | inr (e, hit) ↦ ground (arith, hit, miss)
]

record_sticky-IsValid :
    (r : Router) (ip domain pid : Text) (now : ℕ) (s : Sticky)
    → IsValid now s
    → IsValid now (record_sticky r ip domain pid now s)
unfolding record_sticky
record_sticky-IsValid r ip domain pid now s v =
    if_elim (IsValid now) (not s.enabled) (λ _. v)
      (λ _.
        if_elim (IsValid now) (r.worse_than_best domain pid) (λ _. v)
          (λ _.
            let key = sticky_key ip domain in
            let m = make_room-HasRoom r key now s v in
            let e : Entry = record {
              proxy_id = pid;
              updated_at = r.now_utc;
              updated_mono = now;
              hits = 0;
              ref_ewma = r.ref_ewma_for domain pid;
            } in
            written-IsValid now key e (make_room r key now s) refl
              (λ miss. make_room_fresh r key now s v miss) m.valid))

abbrev bumped : Router → Text → ℕ → Entry → Entry
bumped r pid now e = record e {
  proxy_id = pid;
  updated_at = r.now_utc;
  updated_mono = now;
  hits = e.hits + 1;
}

bump_miss :
    (r : Router) (ip domain pid : Text) (now : ℕ) (s : Sticky)
    → lookup (sticky_key ip domain) s.cache ≡ none
    → bump_sticky r ip domain pid now s ≡ record_sticky r ip domain pid now s
unfolding bump_sticky
bump_miss r ip domain pid now s h = ground (arith, h)

pub bump_hit :
    (r : Router) (ip domain pid : Text) (now : ℕ) (e : Entry) (s : Sticky)
    → lookup (sticky_key ip domain) s.cache ≡ some e
    → bump_sticky r ip domain pid now s ≡ record s {
      cache =
          move_to_end
            (sticky_key ip domain)
            (put (sticky_key ip domain) (bumped r pid now e) s.cache);
    }
unfolding bump_sticky
bump_hit r ip domain pid now e s h = ground (arith, h)

bump_sticky-IsValid :
    (r : Router) (ip domain pid : Text) (now : ℕ) (s : Sticky)
    → IsValid now s
    → IsValid now (bump_sticky r ip domain pid now s)
bump_sticky-IsValid r ip domain pid now s v =
    elim (Option-cases (lookup (sticky_key ip domain) s.cache)) [
      | inl miss ↦
          subst (IsValid now) (sym (bump_miss r ip domain pid now s miss))
            (record_sticky-IsValid r ip domain pid now s v)
      | inr (e, hit) ↦ subst (IsValid now) (sym (bump_hit r ip domain pid now e s hit)) (
          written-IsValid now (sticky_key ip domain) (bumped r pid now e) s refl
            (λ miss. ground (arith, hit, miss)) v)
    ]

-- what a lookup that does not evict keeps
judge_quality_same :
    (r : Router) (ip domain : Text) (now : ℕ) (pid : Text) (s : Sticky)
    → ((judge_quality r ip domain now pid s).1.cache ≡ s.cache)
      × ((judge_quality r ip domain now pid s).1.max_entries ≡ s.max_entries)
unfolding judge_quality sticky_degrade_due
judge_quality_same r ip domain now pid s = ground arith

same-IsValid :
    (now : ℕ) (s t : Sticky)
    → t.cache ≡ s.cache
    → t.max_entries ≡ s.max_entries
    → IsValid now s
    → IsValid now t
same-IsValid now s t c m v = record {
  distinct = subst Distinct (sym c) v.distinct;
  ordered = subst Ordered (sym c) v.ordered;
  before = subst (Before now) (sym c) v.before;
  few = ground (arith, c, m, v.few);
}

get_sticky_proxy-IsValid :
    (r : Router) (ip domain : Text) (now : ℕ) (s : Sticky)
    → IsValid now s
    → IsValid now (get_sticky_proxy r ip domain now s).1
unfolding get_sticky_proxy
get_sticky_proxy-IsValid r ip domain now s v =
    if_elim (λ (a : Option Text × Sticky). IsValid now a.1) (not s.enabled) (λ _. v)
      (λ _. elim (Option-cases (lookup (sticky_key ip domain) s.cache)) [
        | inl miss ↦ rw miss v
        | inr (e, hit) ↦ rw hit (
            if_elim (λ (a : Option Text × Sticky). IsValid now a.1) (is_unfit r domain now e s)
              (λ _. evict_sticky_key-IsValid now (sticky_key ip domain) s v)
              (λ _.
                let same = judge_quality_same r ip domain now e.proxy_id s in
                same-IsValid now s (judge_quality r ip domain now e.proxy_id s).1 same.0 same.1 v))
      ])

-- the calls of the router, each with the answers it would get during the call
pub data Call : Type 0 where
  get : Router → Text → Text → Call
  record_winner : Router → Text → Text → Text → Call
  bump : Router → Text → Text → Text → Call
  evict : Text → Text → Call
  prune : Router → Call

unfoldable pub answer : Call → ℕ → Sticky → Sticky
answer (get r ip domain) now s = (get_sticky_proxy r ip domain now s).1
answer (record_winner r ip domain pid) now s = record_sticky r ip domain pid now s
answer (bump r ip domain pid) now s = bump_sticky r ip domain pid now s
answer (evict ip domain) now s = evict_sticky ip domain s
answer (prune r) now s = prune_sticky r now s

-- calls with the time that passes before each
unfoldable pub answer_all : List (ℕ × Call) → ℕ → Sticky → ℕ × Sticky
answer_all [] now s = (now, s)
answer_all ((wait, c) ∷ cs) now s = answer_all cs (now + wait) (answer c (now + wait) s)

answer-IsValid : (c : Call) (now : ℕ) (s : Sticky) → IsValid now s → IsValid now (answer c now s)
unfolding answer evict_sticky
answer-IsValid (get r ip domain) now s v = get_sticky_proxy-IsValid r ip domain now s v
answer-IsValid (record_winner r ip domain pid) now s v =
    record_sticky-IsValid r ip domain pid now s v
answer-IsValid (bump r ip domain pid) now s v = bump_sticky-IsValid r ip domain pid now s v
answer-IsValid (evict ip domain) now s v = evict_sticky_key-IsValid now (sticky_key ip domain) s v
answer-IsValid (prune r) now s v = prune_sticky-IsValid r now now s v

-- Whatever the router asks of the stickiness table while the clock moves on, and whatever the rest of
-- the router answers meanwhile, from a valid table on: each session stands once, the sessions stand in
-- the order of their last use, and there are at most `max 1 max_entries` of them.
pub answer_all-IsValid :
    (cs : List (ℕ × Call)) (now : ℕ) (s : Sticky)
    → IsValid now s
    → IsValid (answer_all cs now s).0 (answer_all cs now s).1
unfolding answer_all
answer_all-IsValid [] now s v = v
answer_all-IsValid ((wait, c) ∷ cs) now s v =
    answer_all-IsValid cs (now + wait) (answer c (now + wait) s)
      (answer-IsValid c (now + wait) s (later-IsValid now (now + wait) s (omega arith) v))
