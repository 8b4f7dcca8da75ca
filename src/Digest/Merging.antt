-- ===== src/Digest/Merging.antt =====
-- What merging keeps, the weights among it, and how many centroids it leaves.
use auto_squid.Base.{
  ℕ, zero, suc, ◌+◌, ◌≤◌, ◌<◌, ◌≡◌, refl, ap, ◌∙◌, true, false, List, [], ◌∷◌, ◌++◌, arith, ltb,
  ltb→lt, if_elim, nat_eq, text_eq, length,
}
use auto_squid.Digest.{
  Centroid, Floats, max_centroids, merge, mean_le, insert_point, sort_points, cluster, cluster_all,
  gap, gap_le, narrowest, merge_at, merge_narrowest, trim, trim_all,
}

abbrev pub total : (Centroid → ℕ) → List Centroid → ℕ
total f [] = 0
total f (x ∷ xs) = f x + total f xs

pub total-append :
    (f : Centroid → ℕ) (xs ys : List Centroid) → total f (xs ++ ys) ≡ total f xs + total f ys
total-append f [] ys = omega arith
total-append f (x ∷ xs) ys = omega (arith, total-append f xs ys)

total-insert_point :
    (f : Centroid → ℕ) (x : Centroid) (xs : List Centroid)
    → total f (insert_point x xs) ≡ f x + total f xs
unfolding insert_point
total-insert_point f x [] = refl
total-insert_point f x (y ∷ ys) =
    if_elim (λ r. total f r ≡ f x + (f y + total f ys)) (mean_le x y) (λ _. refl)
      (λ _. omega (arith, total-insert_point f x ys))

pub total-sort_points :
    (f : Centroid → ℕ) (xs : List Centroid) → total f (sort_points xs) ≡ total f xs
unfolding sort_points
total-sort_points f [] = refl
total-sort_points f (x ∷ xs) =
    omega (arith, total-insert_point f x (sort_points xs), total-sort_points f xs)

-- a measure that merging adds up
abbrev pub Additive : Floats → (Centroid → ℕ) → Type 0
Additive k f = (x y : Centroid) → f (merge k x y) ≡ f x + f y

total-cluster :
    (f : Centroid → ℕ) (k : Floats) (n before : ℕ) (cur : Centroid) (xs : List Centroid)
    → Additive k f
    → total f (cluster k n before cur xs) ≡ f cur + total f xs
unfolding cluster
total-cluster f k n before cur [] adds = refl
total-cluster f k n before cur (x ∷ xs) adds =
    elim (k.span_fits n before (before + (cur.weight + x.weight)))
      as (λ b.
        total f (elim b [
          | true ↦ cluster k n before (merge k cur x) xs
          | false ↦ cur ∷ cluster k n (before + cur.weight) x xs
        ])
        ≡ f cur + (f x + total f xs)) [
          | true ↦ omega (arith, adds cur x, total-cluster f k n before (merge k cur x) xs adds)
          | false ↦ omega (arith, total-cluster f k n (before + cur.weight) x xs adds)
        ]

pub total-cluster_all :
    (f : Centroid → ℕ) (k : Floats) (n : ℕ) (xs : List Centroid)
    → Additive k f
    → total f (cluster_all k n xs) ≡ total f xs
total-cluster_all f k n [] adds = refl
total-cluster_all f k n (x ∷ xs) adds = total-cluster f k n 0 x xs adds

total-merge_at :
    (k : Floats) (f : Centroid → ℕ) (i : ℕ) (xs : List Centroid)
    → Additive k f
    → total f (merge_at k i xs) ≡ total f xs
unfolding merge_at
total-merge_at k f i [] adds = refl
total-merge_at k f i (x ∷ []) adds = refl
total-merge_at k f zero (x ∷ y ∷ ys) adds = omega (arith, adds x y)
total-merge_at k f (suc i) (x ∷ y ∷ ys) adds = omega (arith, total-merge_at k f i (y ∷ ys) adds)

total-merge_narrowest :
    (k : Floats) (f : Centroid → ℕ) (xs : List Centroid)
    → Additive k f
    → total f (merge_narrowest k xs) ≡ total f xs
unfolding merge_narrowest
total-merge_narrowest k f [] adds = refl
total-merge_narrowest k f (x ∷ []) adds = refl
total-merge_narrowest k f (x ∷ y ∷ ys) adds =
    total-merge_at k f (narrowest x y ys).0 (x ∷ y ∷ ys) adds

pub total-trim :
    (k : Floats) (f : Centroid → ℕ) (fuel : ℕ) (xs : List Centroid)
    → Additive k f
    → total f (trim k fuel xs) ≡ total f xs
unfolding trim
total-trim k f zero xs adds = refl
total-trim k f (suc fuel) xs adds =
    if_elim (λ r. total f r ≡ total f xs) (ltb max_centroids (length xs))
      (λ _. total-trim k f fuel (merge_narrowest k xs) adds ∙ total-merge_narrowest k f xs adds)
      (λ _. refl)

-- the narrowest gap lies between two of the centroids
narrowest-lt : (x y : Centroid) (zs : List Centroid) → (narrowest x y zs).0 < suc (length zs)
unfolding narrowest
narrowest-lt x y [] = omega arith
narrowest-lt x y (z ∷ zs) =
    if_elim (λ (r : ℕ × (ℕ × ℕ)). r.0 < suc (suc (length zs)))
      (gap_le (gap x y) (narrowest y z zs).1) (λ _. omega arith)
      (λ _. omega (arith, narrowest-lt y z zs))

length-merge_at :
    (k : Floats) (i : ℕ) (x : Centroid) (xs : List Centroid)
    → i < length xs
    → length (merge_at k i (x ∷ xs)) ≡ length xs
unfolding merge_at
length-merge_at k i x [] lt = absurd (omega (arith, lt))
length-merge_at k zero x (y ∷ ys) lt = refl
length-merge_at k (suc i) x (y ∷ ys) lt = ap suc (length-merge_at k i y ys (omega (arith, lt)))

length-merge_narrowest :
    (k : Floats) (xs : List Centroid)
    → 1 < length xs
    → length (merge_narrowest k xs) + 1 ≡ length xs
unfolding merge_narrowest
length-merge_narrowest k [] lt = absurd (omega (arith, lt))
length-merge_narrowest k (x ∷ []) lt = absurd (omega (arith, lt))
length-merge_narrowest k (x ∷ y ∷ ys) lt =
    omega (arith, length-merge_at k (narrowest x y ys).0 x (y ∷ ys) (narrowest-lt x y ys))

-- enough rounds leave at most the limit
pub length-trim :
    (k : Floats) (fuel : ℕ) (xs : List Centroid)
    → length xs ≤ fuel + max_centroids
    → length (trim k fuel xs) ≤ max_centroids
unfolding trim
length-trim k zero xs le = omega (arith, le)
length-trim k (suc fuel) xs le =
    if_elim (λ (r : List Centroid). length r ≤ max_centroids) (ltb max_centroids (length xs))
      (λ over.
        let long = ltb→lt max_centroids (length xs) over in
        length-trim k fuel (merge_narrowest k xs)
          (omega (arith, le, long, length-merge_narrowest k xs (omega (arith, long)))))
      (λ fits. let le : length xs ≤ max_centroids = ground (arith, fits) in le)

pub length-trim_all : (k : Floats) (xs : List Centroid) → length (trim_all k xs) ≤ max_centroids
length-trim_all k xs = length-trim k (length xs) xs (omega arith)
