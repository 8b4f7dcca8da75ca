-- ===== src/Dict/Shrink.antt =====
-- Shrinking a table to a limit by the rank of its values:
-- `for k, _ in sorted(d.items(), key=...)[:overflow]: del d[k]`.
use auto_squid.Base.{
  ℕ, zero, suc, ◌+◌, ◌-◌, ◌≤◌, min, ◌≡◌, refl, ◌∙◌, true, none, some, List, [], ◌∷◌, arith, ltb,
  leb, if◌then◌else◌, Eq, ◌==◌, nat_eq, text_eq, pair_eq, option_eq, beq_refl, take, contains,
  if_elim,
}
use auto_squid.Dict.{Dict, size, keys, lookup, remove, has_key, Distinct}
use auto_squid.Dict.Laws.{lookup-remove, Distinct-remove}
use auto_squid.Dict.Measure.{size-remove}

module _ {ℓ κ} {K : Type ℓ} {V : Type κ} where
  -- `sorted` is stable: an entry goes before those of equal rank that stood after it
  unfoldable pub insert_by : (V → ℕ) → K → V → Dict K V → Dict K V
  insert_by w k v [] = (k, v) ∷ []
  insert_by w k v ((i, u) ∷ d) =
      let rest = insert_by w k v d in if leb (w v) (w u) then (k, v) ∷ (i, u) ∷ d else (i, u) ∷ rest

  unfoldable pub sort_by : (V → ℕ) → Dict K V → Dict K V
  sort_by w [] = []
  sort_by w ((k, v) ∷ d) = insert_by w k v (sort_by w d)

  pub size-insert_by :
      (w : V → ℕ) (k : K) (v : V) (d : Dict K V) → size (insert_by w k v d) ≡ suc (size d)
  unfolding insert_by
  size-insert_by w k v [] = refl
  size-insert_by w k v ((i, u) ∷ d) = ground (arith, size-insert_by w k v d)

  pub size-sort_by : (w : V → ℕ) (d : Dict K V) → size (sort_by w d) ≡ size d
  unfolding sort_by
  size-sort_by w [] = refl
  size-sort_by w ((k, v) ∷ d) = ground (arith, size-insert_by w k v (sort_by w d), size-sort_by w d)

  pub size-take : (n : ℕ) (d : Dict K V) → size (take n d) ≡ min n (size d)
  size-take zero d = omega arith
  size-take (suc n) [] = omega arith
  size-take (suc n) (x ∷ d) = omega (arith, size-take n d)

module _ {ℓ κ} {K : Type ℓ} {V : Type κ} ⦃e : Eq K⦄ where
  unfoldable pub remove_each : List K → Dict K V → Dict K V
  remove_each [] d = d
  remove_each (k ∷ ks) d = remove_each ks (remove k d)

  -- the lowest ranks go until the limit holds
  unfoldable pub shrink : ℕ → (V → ℕ) → Dict K V → Dict K V
  unfolding remove_each sort_by
  shrink limit w d =
      if ltb limit (size d) then remove_each (keys (take (size d - limit) (sort_by w d))) d else d

  pub lookup-remove_each :
      (ks : List K) (j : K) (d : Dict K V)
      → lookup j (remove_each ks d) ≡ (if contains j ks then none else lookup j d)
  unfolding remove_each contains
  lookup-remove_each [] j d = refl
  lookup-remove_each (k ∷ ks) j d =
      ground (arith, lookup-remove_each ks j (remove k d), lookup-remove k j d)

  pub contains-keys : (j : K) (d : Dict K V) → contains j (keys d) ≡ has_key j d
  unfolding contains keys has_key lookup
  contains-keys j [] = refl
  contains-keys j ((k, v) ∷ d) = ground (arith, contains-keys j d)

  lookup-insert_by :
      (w : V → ℕ) (k j : K) (v : V) (d : Dict K V)
      → lookup k d ≡ none
      → lookup j (insert_by w k v d) ≡ (if k == j then some v else lookup j d)
  unfolding insert_by lookup
  lookup-insert_by w k j v [] h = refl
  lookup-insert_by w k j v ((i, u) ∷ d) h =
      ground (arith, lookup-insert_by w k j v d, h, e.beq_iff i k, e.beq_iff k j, e.beq_iff i j)

  pub lookup-sort_by :
      (w : V → ℕ) (j : K) (d : Dict K V) → Distinct d → lookup j (sort_by w d) ≡ lookup j d
  unfolding sort_by lookup
  lookup-sort_by w j [] h = refl
  lookup-sort_by w j ((k, v) ∷ d) h = ground (
    arith,
    lookup-insert_by w k j v (sort_by w d),
    lookup-sort_by w k d h.1,
    lookup-sort_by w j d h.1,
    h.0,
  )

  Distinct-insert_by :
      (w : V → ℕ) (k : K) (v : V) (d : Dict K V)
      → lookup k d ≡ none
      → Distinct d
      → Distinct (insert_by w k v d)
  unfolding insert_by lookup
  Distinct-insert_by w k v [] h n = (refl, tt)
  Distinct-insert_by w k v ((i, u) ∷ d) h n = ground (
    arith,
    Distinct-insert_by w k v d,
    lookup-insert_by w k i v d,
    h,
    n.0,
    n.1,
    e.beq_iff i k,
    e.beq_iff k i,
  )

  has_key-sort_by :
      (w : V → ℕ) (k : K) (d : Dict K V) → Distinct d → has_key k d ≡ has_key k (sort_by w d)
  unfolding has_key
  has_key-sort_by w k d h = ground (arith, lookup-sort_by w k d h)

  pub Distinct-sort_by : (w : V → ℕ) (d : Dict K V) → Distinct d → Distinct (sort_by w d)
  unfolding sort_by
  Distinct-sort_by w [] h = tt
  Distinct-sort_by w ((k, v) ∷ d) h =
      Distinct-insert_by w k v (sort_by w d) (lookup-sort_by w k d h.1 ∙ h.0)
        (Distinct-sort_by w d h.1)

  lookup-take_miss : (n : ℕ) (k : K) (d : Dict K V) → lookup k d ≡ none → lookup k (take n d) ≡ none
  unfolding lookup
  lookup-take_miss zero k d h = refl
  lookup-take_miss (suc n) k [] h = refl
  lookup-take_miss (suc n) k ((i, u) ∷ d) h = ground (arith, h, lookup-take_miss n k d)

  Distinct-take : (n : ℕ) (d : Dict K V) → Distinct d → Distinct (take n d)
  Distinct-take zero d h = tt
  Distinct-take (suc n) [] h = tt
  Distinct-take (suc n) ((k, v) ∷ d) h = (lookup-take_miss n k d h.0, Distinct-take n d h.1)

  take-within : (n : ℕ) (k : K) (d : Dict K V) → has_key k (take n d) ≡ true → has_key k d ≡ true
  unfolding has_key lookup
  take-within zero k d h = ground (arith, h)
  take-within (suc n) k [] h = ground (arith, h)
  take-within (suc n) k ((i, u) ∷ d) h = ground (arith, h, take-within n k d)

  size-remove_each :
      (c d : Dict K V)
      → Distinct c
      → Distinct d
      → ((k : K) → has_key k c ≡ true → has_key k d ≡ true)
      → size (remove_each (keys c) d) + size c ≡ size d
  unfolding remove_each keys lookup has_key
  size-remove_each [] d h n within = omega arith
  size-remove_each ((k, v) ∷ c) d h n within =
      let rest =
        size-remove_each c (remove k d) h.1 (Distinct-remove k d n)
          (λ j there. ground (arith, within j, there, h.0, lookup-remove k j d, e.beq_iff k j)) in
      ground (arith, rest, size-remove k d n, within k, beq_refl k)

  -- the limit holds afterwards
  pub size-shrink :
      (limit : ℕ) (w : V → ℕ) (d : Dict K V) → Distinct d → size (shrink limit w d) ≤ limit
  unfolding shrink
  size-shrink limit w d h =
      let over = size d - limit in
      let c = take over (sort_by w d) in
      let removed =
        size-remove_each c d (Distinct-take over (sort_by w d) (Distinct-sort_by w d h)) h
          (λ k there. has_key-sort_by w k d h ∙ take-within over k (sort_by w d) there) in
      ground (arith, removed, size-take over (sort_by w d), size-sort_by w d)

  pub Distinct-remove_each : (ks : List K) (d : Dict K V) → Distinct d → Distinct (remove_each ks d)
  unfolding remove_each
  Distinct-remove_each [] d h = h
  Distinct-remove_each (k ∷ ks) d h = Distinct-remove_each ks (remove k d) (Distinct-remove k d h)

  pub Distinct-shrink :
      (limit : ℕ) (w : V → ℕ) (d : Dict K V) → Distinct d → Distinct (shrink limit w d)
  unfolding shrink
  Distinct-shrink limit w d h =
      if_elim Distinct (ltb limit (size d))
        (λ _. Distinct-remove_each (keys (take (size d - limit) (sort_by w d))) d h) (λ _. h)
