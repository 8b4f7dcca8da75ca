-- ===== src/Dict/Laws.antt =====
-- What a lookup reads after each operation, and that keys stay distinct.
use auto_squid.Base.{
  zero, suc, drop, ℕ, Bool, false, Option, none, some, [], ◌∷◌, ◌++◌, Eq, ◌==◌, if◌then◌else◌, ◌≡◌,
  refl, arith, ◌||◌, beq_refl, Option-cases, inl, inr, not, true, ◌&&◌,
}
use auto_squid.Dict.{Dict, keep, lookup, put, remove, move_to_end, has_key, Distinct}

-- the value of a lookup that a test lets through
abbrev pub kept {ℓ} : {V : Type ℓ} → (V → Bool) → Option V → Option V
kept p none = none
kept p (some v) = if p v then some v else none

-- the first of two lookups that finds something
abbrev pub or_else {ℓ} : {V : Type ℓ} → Option V → Option V → Option V
or_else none o = o
or_else (some v) o = some v

module _ {ℓ κ} {K : Type ℓ} {V : Type κ} ⦃e : Eq K⦄ where
  pub lookup-nil : (k : K) → lookup {V = V} k [] ≡ none
  unfolding lookup
  lookup-nil k = refl

  pub lookup-put :
      (k j : K) (v : V) (d : Dict K V)
      → lookup j (put k v d) ≡ (if k == j then some v else lookup j d)
  unfolding lookup put
  lookup-put k j v [] = refl
  lookup-put k j v ((i, w) ∷ d) =
      ground (arith, lookup-put k j v d, e.beq_iff i k, e.beq_iff i j, e.beq_iff k j)

  pub lookup-remove :
      (k j : K) (d : Dict K V) → lookup j (remove k d) ≡ (if k == j then none else lookup j d)
  unfolding lookup remove
  lookup-remove k j [] = ground arith
  lookup-remove k j ((i, w) ∷ d) =
      ground (arith, lookup-remove k j d, e.beq_iff i k, e.beq_iff i j, e.beq_iff k j)

  pub lookup-append :
      (j : K) (d c : Dict K V) → lookup j (d ++ c) ≡ or_else (lookup j d) (lookup j c)
  unfolding lookup
  lookup-append j [] c = refl
  lookup-append j ((i, w) ∷ d) c = ground (arith, lookup-append j d c)

  pub lookup-move_to_end : (k j : K) (d : Dict K V) → lookup j (move_to_end k d) ≡ lookup j d
  unfolding move_to_end lookup
  lookup-move_to_end k j d = elim (Option-cases (lookup k d)) [
    | inl miss ↦ ground (arith, miss)
    | inr (v, hit) ↦
        ground (
          arith,
          hit,
          lookup-append j (remove k d) ((k, v) ∷ []),
          lookup-remove k j d,
          e.beq_iff k j,
        )
  ]

  pub lookup-keep :
      (p : K → V → Bool) (j : K) (d : Dict K V)
      → Distinct d
      → lookup j (keep p d) ≡ kept (p j) (lookup j d)
  unfolding lookup keep
  lookup-keep p j [] h = refl
  lookup-keep p j ((i, w) ∷ d) h = ground (arith, lookup-keep p j d h.1, e.beq_iff i j)

  pub Distinct-put : (k : K) (v : V) (d : Dict K V) → Distinct d → Distinct (put k v d)
  unfolding lookup put
  Distinct-put k v [] h = (refl, tt)
  Distinct-put k v ((i, w) ∷ d) h =
      ground (arith, Distinct-put k v d h.1, lookup-put k i v d, e.beq_iff i k, e.beq_iff k i)

  pub Distinct-remove : (k : K) (d : Dict K V) → Distinct d → Distinct (remove k d)
  unfolding lookup remove
  Distinct-remove k [] h = tt
  Distinct-remove k ((i, w) ∷ d) h = ground (arith, Distinct-remove k d h.1, lookup-remove k i d)

  pub Distinct-keep : (p : K → V → Bool) (d : Dict K V) → Distinct d → Distinct (keep p d)
  unfolding lookup keep
  Distinct-keep p [] h = tt
  Distinct-keep p ((i, w) ∷ d) h = ground (arith, Distinct-keep p d h.1, lookup-keep p i d h.1)

  pub Distinct-snoc :
      (k : K) (v : V) (d : Dict K V) → Distinct d → lookup k d ≡ none → Distinct (d ++ (k, v) ∷ [])
  unfolding lookup
  Distinct-snoc k v [] h miss = (refl, tt)
  Distinct-snoc k v ((i, w) ∷ d) h miss = ground (
    arith,
    Distinct-snoc k v d h.1,
    lookup-append i d ((k, v) ∷ []),
    e.beq_iff i k,
    e.beq_iff k i,
  )

  pub Distinct-move_to_end : (k : K) (d : Dict K V) → Distinct d → Distinct (move_to_end k d)
  unfolding move_to_end
  Distinct-move_to_end k d h = elim (Option-cases (lookup k d)) [
    | inl miss ↦ ground (arith, miss)
    | inr (v, hit) ↦ ground (
      arith,
      hit,
      Distinct-remove k d h,
      lookup-remove k k d,
      e.beq_iff k k,
      Distinct-snoc k v (remove k d),
    )
  ]

  pub has_key_iff : (k : K) (d : Dict K V) → has_key k d ≡ false → lookup k d ≡ none
  unfolding has_key
  has_key_iff k d h = ground arith

  pub remove_absent : (k : K) (d : Dict K V) → lookup k d ≡ none → remove k d ≡ d
  unfolding lookup remove
  remove_absent k [] h = refl
  remove_absent k ((i, u) ∷ d) h = ground (arith, remove_absent k d)

  pub remove-put : (k : K) (v : V) (d : Dict K V) → remove k (put k v d) ≡ remove k d
  unfolding remove put
  remove-put k v [] = ground (arith, beq_refl k)
  remove-put k v ((i, u) ∷ d) = ground (arith, remove-put k v d)

  pub has_key-put :
      (k j : K) (v : V) (d : Dict K V) → has_key j (put k v d) ≡ (k == j || has_key j d)
  unfolding has_key
  has_key-put k j v d = ground (arith, lookup-put k j v d)

  pub has_key-remove :
      (k j : K) (d : Dict K V) → has_key j (remove k d) ≡ (not (k == j) && has_key j d)
  unfolding has_key
  has_key-remove k j d = ground (arith, lookup-remove k j d)

  pub has_key-move_to_end : (k j : K) (d : Dict K V) → has_key j (move_to_end k d) ≡ has_key j d
  unfolding has_key
  has_key-move_to_end k j d = ground (arith, lookup-move_to_end k j d)

  pub has_key-some : (k : K) (d : Dict K V) {v : V} → lookup k d ≡ some v → has_key k d ≡ true
  unfolding has_key
  has_key-some k d h = ground (arith, h)

  -- the oldest entry goes, and nothing else
  pub remove-head :
      (k : K) (v : V) (d : Dict K V) → Distinct ((k, v) ∷ d) → remove k ((k, v) ∷ d) ≡ d
  unfolding remove
  remove-head k v d h = ground (arith, remove_absent k d h.0, beq_refl k)

  pub move_to_end-put :
      (k : K) (v : V) (d : Dict K V)
      → Distinct d
      → move_to_end k (put k v d) ≡ remove k d ++ (k, v) ∷ []
  unfolding move_to_end
  move_to_end-put k v d h = ground (arith, lookup-put k k v d, beq_refl k, remove-put k v d)

  pub lookup-drop : (n : ℕ) (k : K) (d : Dict K V) → lookup k d ≡ none → lookup k (drop n d) ≡ none
  unfolding lookup
  lookup-drop zero k d h = h
  lookup-drop (suc n) k [] h = refl
  lookup-drop (suc n) k ((i, v) ∷ d) h = lookup-drop n k d (ground (arith, h))
