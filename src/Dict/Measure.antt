-- ===== src/Dict/Measure.antt =====
-- How a sum over the values, and so the number of entries, changes under each operation.
use auto_squid.Base.{
  ℕ, ◌+◌, ◌≤◌, Bool, Option, none, some, [], ◌∷◌, ◌++◌, Eq, ◌≡◌, refl, arith, Option-cases, inl,
  inr,
}
use auto_squid.Dict.Laws.{remove_absent}
use auto_squid.Dict.{Dict, size, keep, total, lookup, put, remove, move_to_end, Distinct}

abbrev pub measured {ℓ} : {V : Type ℓ} → (V → ℕ) → Option V → ℕ
measured w none = 0
measured w (some v) = w v

module _ {ℓ κ} {K : Type ℓ} {V : Type κ} where
  pub total-append : (w : V → ℕ) (d c : Dict K V) → total w (d ++ c) ≡ total w d + total w c
  unfolding total
  total-append w [] c = omega arith
  total-append w ((i, v) ∷ d) c = omega (arith, total-append w d c)

  pub size-eq-total : (d : Dict K V) → size d ≡ total (λ _. 1) d
  unfolding total
  size-eq-total [] = refl
  size-eq-total ((i, v) ∷ d) = omega (arith, size-eq-total d)

  pub size-keep-le : (p : K → V → Bool) (d : Dict K V) → size (keep p d) ≤ size d
  unfolding keep
  size-keep-le p [] = omega arith
  size-keep-le p ((i, v) ∷ d) = ground (arith, size-keep-le p d)

module _ {ℓ κ} {K : Type ℓ} {V : Type κ} ⦃e : Eq K⦄ where
  pub total-put :
      (w : V → ℕ) (k : K) (v : V) (d : Dict K V)
      → total w (put k v d) + measured w (lookup k d) ≡ total w d + w v
  unfolding total put lookup
  total-put w k v [] = omega arith
  total-put w k v ((i, u) ∷ d) = ground (arith, total-put w k v d)

  pub total-remove :
      (w : V → ℕ) (k : K) (d : Dict K V)
      → Distinct d
      → total w (remove k d) + measured w (lookup k d) ≡ total w d
  unfolding total remove lookup
  total-remove w k [] h = omega arith
  total-remove w k ((i, u) ∷ d) h =
      ground (arith, total-remove w k d h.1, remove_absent k d, e.beq_iff i k)

  pub total-move_to_end :
      (w : V → ℕ) (k : K) (d : Dict K V) → Distinct d → total w (move_to_end k d) ≡ total w d
  unfolding move_to_end total
  total-move_to_end w k d h = elim (Option-cases (lookup k d)) [
    | inl miss ↦ ground (arith, miss)
    | inr (v, hit) ↦
        ground (arith, hit, total-append w (remove k d) ((k, v) ∷ []), total-remove w k d h)
  ]

  pub size-put-le : (k : K) (v : V) (d : Dict K V) → size (put k v d) ≤ size d + 1
  unfolding put
  size-put-le k v [] = omega arith
  size-put-le k v ((i, u) ∷ d) = ground (arith, size-put-le k v d)

  pub size-move_to_end : (k : K) (d : Dict K V) → Distinct d → size (move_to_end k d) ≡ size d
  size-move_to_end k d h =
      omega
        (arith, size-eq-total (move_to_end k d), size-eq-total d, total-move_to_end (λ _. 1) k d h)

  pub size-remove :
      (k : K) (d : Dict K V)
      → Distinct d
      → size (remove k d) + measured (λ _. 1) (lookup k d) ≡ size d
  size-remove k d h =
      omega (arith, size-eq-total (remove k d), size-eq-total d, total-remove (λ _. 1) k d h)

  pub size-put :
      (k : K) (v : V) (d : Dict K V)
      → size (put k v d) + measured (λ _. 1) (lookup k d) ≡ size d + 1
  size-put k v d =
      omega (arith, size-eq-total (put k v d), size-eq-total d, total-put (λ _. 1) k v d)
