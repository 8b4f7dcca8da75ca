-- ===== src/Sticky/Sweep.antt =====
-- What the sweep of the stickiness table takes away.
use auto_squid.Sticky.{
  Entry, Sticky, Router, evict_sticky_key, evict_each, is_stale, prune_sticky, sweep_probes,
  local_id, expired,
}
use auto_squid.Base.{
  ℕ, ◌≡◌, refl, inl, inr, not, none, List, [], ◌∷◌, arith, if◌then◌else◌, Option-cases, ◌==◌,
  nat_eq, Text, ◌+◌, ◌||◌, leb, text_eq, text_beq_iff, pair_eq, option_eq, contains, Bool,
}
use auto_squid.Dict.{Dict, keys, keep, lookup, has_key, Distinct}
use auto_squid.Dict.Laws.{kept, lookup-remove, lookup-keep}

evict_sticky_key-lookup :
    (k j : Text) (s : Sticky)
    → lookup j (evict_sticky_key k s).cache ≡ (if k == j then none else lookup j s.cache)
unfolding evict_sticky_key
evict_sticky_key-lookup k j s = elim (Option-cases (lookup k s.cache)) [
  | inl miss ↦ ground (arith, miss, text_beq_iff k j)
  | inr (e, hit) ↦ ground (arith, hit, lookup-remove k j s.cache)
]

evict_each-lookup :
    (ks : List Text) (j : Text) (s : Sticky)
    → lookup j (evict_each ks s).cache ≡ (if contains j ks then none else lookup j s.cache)
unfolding evict_each contains
evict_each-lookup [] j s = refl
evict_each-lookup (k ∷ ks) j s =
    ground (arith, evict_each-lookup ks j (evict_sticky_key k s), evict_sticky_key-lookup k j s)

contains-keys : (j : Text) (d : Dict Text Entry) → contains j (keys d) ≡ has_key j d
unfolding contains keys has_key lookup
contains-keys j [] = refl
contains-keys j ((k, e) ∷ d) = ground (arith, contains-keys j d)

-- what a sweep takes away
abbrev pub is_swept : Router → ℕ → Sticky → Entry → Bool
is_swept r now s e =
    if e.proxy_id == local_id
    then not s.enable_local_racing
    else not (r.usable e.proxy_id) || leb (e.updated_mono + s.ttl) now

-- A sweep takes away the sessions pinned to a proxy that is no longer usable or not refreshed within
-- the lifetime, and those pinned to this host only if racing from it is off, however old they are.
-- Every other session keeps its entry unchanged. The table must hold each session once.
pub prune_sticky-lookup :
    (r : Router) (now : ℕ) (j : Text) (s : Sticky)
    → Distinct s.cache
    → lookup j (prune_sticky r now s).cache
      ≡ kept (λ e. not (is_swept r now s e)) (lookup j s.cache)
unfolding prune_sticky has_key is_stale expired
prune_sticky-lookup r now j s h = ground (
  arith,
  evict_each-lookup (keys (keep (λ _ e. is_stale r now s e) s.cache)) j
      (record s { last_prune = now; probe_last = sweep_probes now s }),
  contains-keys j (keep (λ _ e. is_stale r now s e) s.cache),
  lookup-keep (λ _ e. is_stale r now s e) j s.cache h,
)
