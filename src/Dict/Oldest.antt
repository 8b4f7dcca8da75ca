-- ===== src/Dict/Oldest.antt =====
-- Shrinking a table takes the lowest ranks.
use auto_squid.Dict.Shrink.{
  insert_by, sort_by, shrink, lookup-remove_each, contains-keys, lookup-sort_by,
}
use auto_squid.Base.{
  ℕ, zero, suc, ◌-◌, ◌≤◌, ◌≡◌, true, false, none, some, [], ◌∷◌, arith, leb, if_elim, Eq, nat_eq,
  text_eq, take,
}
use auto_squid.Dict.{Dict, size, keys, lookup, has_key, Distinct}

module _ {ℓ κ} {K : Type ℓ} {V : Type κ} (w : V → ℕ) where
  abbrev AtLeast : ℕ → Dict K V → Type 0
  AtLeast n [] = Unit
  AtLeast n ((k, v) ∷ d) = (n ≤ w v) × AtLeast n d

  abbrev Sorted : Dict K V → Type 0
  Sorted [] = Unit
  Sorted ((k, v) ∷ d) = AtLeast (w v) d × Sorted d

  AtLeast-≤ : (m n : ℕ) (d : Dict K V) → m ≤ n → AtLeast n d → AtLeast m d
  AtLeast-≤ m n [] le h = tt
  AtLeast-≤ m n ((k, v) ∷ d) le h = (omega (arith, le, h.0), AtLeast-≤ m n d le h.1)

  insert_by-AtLeast :
      (n : ℕ) (k : K) (v : V) (d : Dict K V) → n ≤ w v → AtLeast n d → AtLeast n (insert_by w k v d)
  unfolding insert_by
  insert_by-AtLeast n k v [] le h = (le, tt)
  insert_by-AtLeast n k v ((i, u) ∷ d) le h =
      if_elim (AtLeast n) (leb (w v) (w u)) (λ _. (le, h))
        (λ _. (h.0, insert_by-AtLeast n k v d le h.1))

  insert_by-Sorted : (k : K) (v : V) (d : Dict K V) → Sorted d → Sorted (insert_by w k v d)
  unfolding insert_by
  insert_by-Sorted k v [] h = (tt, tt)
  insert_by-Sorted k v ((i, u) ∷ d) h =
      if_elim Sorted (leb (w v) (w u))
        (λ le.
          let under : w v ≤ w u = ground (arith, le) in
          ((under, AtLeast-≤ (w v) (w u) d under h.0), h))
        (λ gt.
          let over : w u ≤ w v = ground (arith, gt) in
          (insert_by-AtLeast (w u) k v d over h.0, insert_by-Sorted k v d h.1))

  sort_by-Sorted : (d : Dict K V) → Sorted (sort_by w d)
  unfolding sort_by
  sort_by-Sorted [] = tt
  sort_by-Sorted ((k, v) ∷ d) = insert_by-Sorted k v (sort_by w d) (sort_by-Sorted d)

module _ {ℓ κ} {K : Type ℓ} {V : Type κ} ⦃e : Eq K⦄ (w : V → ℕ) where
  AtLeast-lookup :
      (n : ℕ) (k : K) (v : V) (d : Dict K V) → AtLeast w n d → lookup k d ≡ some v → n ≤ w v
  unfolding lookup
  AtLeast-lookup n k v [] h found = ground (arith, found)
  AtLeast-lookup n k v ((i, u) ∷ d) h found = ground (arith, found, h.0, AtLeast-lookup n k v d h.1)

  take-lowest :
      (n : ℕ) (j k : K) (u v : V) (d : Dict K V)
      → Sorted w d
      → has_key j (take n d) ≡ true
      → has_key k (take n d) ≡ false
      → lookup j d ≡ some u
      → lookup k d ≡ some v
      → w u ≤ w v
  unfolding lookup has_key
  take-lowest zero j k u v d h low high hit there = ground (arith, low)
  take-lowest (suc n) j k u v [] h low high hit there = ground (arith, low)
  take-lowest (suc n) j k u v ((i, x) ∷ d) h low high hit there = ground (
    arith,
    low,
    high,
    hit,
    there,
    AtLeast-lookup (w x) k v d h.0,
    take-lowest n j k u v d h.1,
    e.beq_iff i j,
    e.beq_iff i k,
  )

  -- whatever goes ranks no higher than whatever stays
  pub shrink-lowest :
      (limit : ℕ) (j k : K) (u v : V) (d : Dict K V)
      → Distinct d
      → lookup j d ≡ some u
      → lookup j (shrink limit w d) ≡ none
      → lookup k (shrink limit w d) ≡ some v
      → w u ≤ w v
  unfolding shrink
  shrink-lowest limit j k u v d h hit gone stays =
      let c = take (size d - limit) (sort_by w d) in
      ground (
        arith,
        hit,
        gone,
        stays,
        lookup-remove_each (keys c) j d,
        lookup-remove_each (keys c) k d,
        contains-keys j c,
        contains-keys k c,
        lookup-sort_by w j d h,
        lookup-sort_by w k d h,
        take-lowest (size d - limit) j k u v (sort_by w d) (sort_by-Sorted w d),
      )
