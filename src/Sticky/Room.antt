-- ===== src/Sticky/Room.antt =====
-- The capacity guard of the stickiness table makes room for one more session.
use auto_squid.Sticky.{
  Entry, Sticky, Router, evict_sticky_key, evict_each, evict_oldest_sticky, prune_sticky,
  prune_sticky_throttled, make_room, sweep_probes, is_stale,
}
use auto_squid.Sticky.Validity.{
  IsValid, evict_sticky_key-IsValid, evict_hit, prune_sticky_throttled-IsValid,
}
use auto_squid.Base.{
  ℕ, suc, ◌+◌, ◌≤◌, max, ◌≡◌, refl, sym, ◌∙◌, inl, inr, not, ◌&&◌, none, some, List, [], ◌∷◌, arith,
  ltb, leb, Option-cases, if_elim, subst, nat_eq, Text, text_eq, beq_refl,
}
use auto_squid.Dict.{Dict, size, keys, keep, lookup, has_key}
use auto_squid.Dict.Laws.{lookup-remove}
use auto_squid.Dict.Measure.{size-remove}

-- what every eviction keeps: the limit, the switch, and the absence of a session
pub record Keeps (key : Text) (old new : Sticky) : Type 0 where
  pub limit : new.max_entries ≡ old.max_entries
  pub absent : lookup key old.cache ≡ none → lookup key new.cache ≡ none

pub evict_sticky_key-Keeps : (key k : Text) (s : Sticky) → Keeps key s (evict_sticky_key k s)
unfolding evict_sticky_key
evict_sticky_key-Keeps key k s = elim (Option-cases (lookup k s.cache)) [
  | inl miss ↦ record { limit = ground (arith, miss); absent = λ h. ground (arith, miss, h) }
  | inr (e, hit) ↦ record {
    limit = ground (arith, hit);
    absent = λ h. ground (arith, hit, h, lookup-remove k key s.cache);
  }
]

pub evict_each-Keeps : (key : Text) (ks : List Text) (s : Sticky) → Keeps key s (evict_each ks s)
unfolding evict_each
evict_each-Keeps key [] s = record { limit = refl; absent = λ h. h }
evict_each-Keeps key (k ∷ ks) s =
    let one = evict_sticky_key-Keeps key k s in
    let rest = evict_each-Keeps key ks (evict_sticky_key k s) in
    record { limit = rest.limit ∙ one.limit; absent = λ h. rest.absent (one.absent h) }

pub prune_sticky_throttled-Keeps :
    (key : Text) (r : Router) (now : ℕ) (s : Sticky) → Keeps key s (prune_sticky_throttled r now s)
unfolding prune_sticky_throttled prune_sticky
prune_sticky_throttled-Keeps key r now s =
    if_elim (Keeps key s) (ltb now (s.last_prune + 1_000_000))
      (λ _. record { limit = refl; absent = λ h. h })
      (λ _.
        let all =
          evict_each-Keeps key (keys (keep (λ _ e. is_stale r now s e) s.cache))
            (record s { last_prune = now; probe_last = sweep_probes now s }) in
        record { limit = all.limit; absent = all.absent })

-- evicting the oldest session makes room for one more
pub record HasRoom (key : Text) (now : ℕ) (old new : Sticky) : Type 0 where
  pub valid : IsValid now new
  pub keeps : Keeps key old new
  pub room : lookup key old.cache ≡ none → suc (size new.cache) ≤ max 1 new.max_entries

pub evict_head-HasRoom :
    (key : Text) (now : ℕ) (d : Dict Text Entry) (s : Sticky)
    → s.cache ≡ d
    → IsValid now s
    → HasRoom key now s (evict_oldest_sticky s)
unfolding evict_oldest_sticky lookup
evict_head-HasRoom key now [] s h v =
    let same : evict_oldest_sticky s ≡ s = ground (arith, h) in
    subst (HasRoom key now s) (sym same) (record {
      valid = v;
      keeps = record { limit = refl; absent = λ e. e };
      room = λ _. ground (arith, h);
    })
evict_head-HasRoom key now ((k, e) ∷ d) s h v =
    let hit : lookup k s.cache ≡ some e = ground (arith, h, beq_refl k) in
    let same : evict_oldest_sticky s ≡ evict_sticky_key k s = ground (arith, h) in
    subst (HasRoom key now s) (sym same) (record {
      valid = evict_sticky_key-IsValid now k s v;
      keeps = evict_sticky_key-Keeps key k s;
      room = λ _. ground (arith, evict_hit k e s hit, hit, size-remove k s.cache v.distinct, v.few);
    })

pub make_room-HasRoom :
    (r : Router) (key : Text) (now : ℕ) (s : Sticky)
    → IsValid now s
    → HasRoom key now s (make_room r key now s)
unfolding make_room has_key
make_room-HasRoom r key now s v =
    let swept = prune_sticky_throttled r now s in
    let ok = prune_sticky_throttled-IsValid r now now s v in
    let kept = prune_sticky_throttled-Keeps key r now s in
    if_elim (HasRoom key now s) (not (has_key key s.cache) && leb s.max_entries (size s.cache))
      (λ full.
        if_elim (HasRoom key now s) (leb swept.max_entries (size swept.cache))
          (λ _.
            let one = evict_head-HasRoom key now swept.cache swept refl ok in
            record {
              valid = one.valid;
              keeps = record {
                limit = one.keeps.limit ∙ kept.limit;
                absent = λ h. one.keeps.absent (kept.absent h);
              };
              room = λ h. one.room (kept.absent h);
            })
          (λ less. record { valid = ok; keeps = kept; room = λ _. ground (arith, less) }))
      (λ free. record {
        valid = v;
        keeps = record { limit = refl; absent = λ h. h };
        room = λ h. ground (arith, h, free);
      })
