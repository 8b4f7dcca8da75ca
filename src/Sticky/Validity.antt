-- ===== src/Sticky/Validity.antt =====
-- The invariant of the stickiness table, and that evictions and sweeps keep it.
use auto_squid.Sticky.{
  Entry, Sticky, Router, evict_sticky_key, evict_each, prune_sticky, prune_sticky_throttled,
  sweep_probes, is_stale,
}
use auto_squid.Sticky.Order.{Before, Ordered, Before-remove, Ordered-remove, Before-≤}
use auto_squid.Base.{
  ℕ, ◌+◌, ◌≤◌, max, ◌≡◌, sym, inl, inr, none, some, List, [], ◌∷◌, arith, ltb, Option-cases,
  if_elim, subst, nat_eq, Text, text_eq,
}
use auto_squid.Dict.{size, keys, keep, lookup, remove, Distinct}
use auto_squid.Dict.Laws.{Distinct-remove}
use auto_squid.Dict.Measure.{size-remove}

-- each session once, in the order of the last use, none later than now, within the capacity
pub record IsValid (now : ℕ) (s : Sticky) : Type 0 where
  pub distinct : Distinct s.cache
  pub ordered : Ordered s.cache
  pub before : Before now s.cache
  pub few : size s.cache ≤ max 1 s.max_entries

pub later-IsValid : (t now : ℕ) (s : Sticky) → t ≤ now → IsValid t s → IsValid now s
later-IsValid t now s le v = record {
  distinct = v.distinct;
  ordered = v.ordered;
  before = Before-≤ t now s.cache le v.before;
  few = v.few;
}

pub evict_hit :
    (key : Text) (e : Entry) (s : Sticky)
    → lookup key s.cache ≡ some e
    → evict_sticky_key key s ≡ record s { cache = remove key s.cache; evictions = s.evictions + 1 }
unfolding evict_sticky_key
evict_hit key e s h = ground (arith, h)

pub evict_miss : (key : Text) (s : Sticky) → lookup key s.cache ≡ none → evict_sticky_key key s ≡ s
unfolding evict_sticky_key
evict_miss key s h = ground (arith, h)

pub evict_sticky_key-IsValid :
    (now : ℕ) (key : Text) (s : Sticky) → IsValid now s → IsValid now (evict_sticky_key key s)
evict_sticky_key-IsValid now key s v = elim (Option-cases (lookup key s.cache)) [
  | inl miss ↦ subst (IsValid now) (sym (evict_miss key s miss)) v
  | inr (e, hit) ↦ subst (IsValid now) (sym (evict_hit key e s hit)) (record {
    distinct = Distinct-remove key s.cache v.distinct;
    ordered = Ordered-remove key s.cache v.ordered;
    before = Before-remove now key s.cache v.before;
    few = omega (arith, size-remove key s.cache v.distinct, v.few);
  })
]

pub evict_each-IsValid :
    (now : ℕ) (ks : List Text) (s : Sticky) → IsValid now s → IsValid now (evict_each ks s)
unfolding evict_each
evict_each-IsValid now [] s v = v
evict_each-IsValid now (k ∷ ks) s v =
    evict_each-IsValid now ks (evict_sticky_key k s) (evict_sticky_key-IsValid now k s v)

pub prune_sticky-IsValid :
    (r : Router) (t now : ℕ) (s : Sticky) → IsValid t s → IsValid t (prune_sticky r now s)
unfolding prune_sticky
prune_sticky-IsValid r t now s v =
    evict_each-IsValid t (keys (keep (λ _ e. is_stale r now s e) s.cache))
      (record s { last_prune = now; probe_last = sweep_probes now s })
      (record { distinct = v.distinct; ordered = v.ordered; before = v.before; few = v.few })

pub prune_sticky_throttled-IsValid :
    (r : Router) (t now : ℕ) (s : Sticky) → IsValid t s → IsValid t (prune_sticky_throttled r now s)
unfolding prune_sticky_throttled
prune_sticky_throttled-IsValid r t now s v =
    if_elim (IsValid t) (ltb now (s.last_prune + 1_000_000)) (λ _. v)
      (λ _. prune_sticky-IsValid r t now s v)
