-- ===== src/Digest.antt =====
-- The digest of all samples ever seen (`TDigest` of auto_squid/digest.py). Samples and means are in
-- whole microseconds. Every caller adds with weight 1. What the code computes in floating point, the
-- mean of a merger and the test that the scale function moves by at most 1, is the record `Floats`, of
-- which nothing is assumed.
pub mod Merging
pub mod Summary
use auto_squid.Base.{
  ℕ, zero, suc, ◌+◌, ◌-◌, ◌*◌, Bool, true, false, Option, none, some, List, [], ◌∷◌, ◌++◌, ltb, leb,
  if◌then◌else◌, ◌==◌, nat_eq, text_eq, pair_eq, option_eq, length,
}
use auto_squid.Dict.{total, Dict}

pub record Centroid : Type 0 where
  pub mean : ℕ
  pub weight : ℕ

pub record Digest : Type 0 where
  pub c : List Centroid
  pub b : List Centroid
  pub n : ℕ
  pub mn : Option ℕ
  pub mx : Option ℕ

abbrev pub new_digest : Digest
new_digest = record { c = []; b = []; n = 0; mn = none; mx = none }

-- `MAX_CENTROIDS` and `BUFFER_LIMIT`
abbrev pub max_centroids : ℕ
max_centroids = 96

abbrev pub buffer_limit : ℕ
buffer_limit = 32

-- `span_fits`: for a total weight, whether `k_of` of the second weight is at most 1 above that of the
-- first; `blend`: the mean of two centroids from the mean and the weight of each
pub record Floats : Type 0 where
  pub span_fits : ℕ → ℕ → ℕ → Bool
  pub blend : ℕ → ℕ → ℕ → ℕ → ℕ

abbrev pub merge : Floats → Centroid → Centroid → Centroid
merge k x y = record {
  mean = k.blend x.mean x.weight y.mean y.weight;
  weight = x.weight + y.weight;
}

-- the order of the means
abbrev pub mean_le : Centroid → Centroid → Bool
mean_le x y = leb x.mean y.mean

unfoldable pub insert_point : Centroid → List Centroid → List Centroid
insert_point x [] = x ∷ []
insert_point x (y ∷ ys) =
    let rest = insert_point x ys in if mean_le x y then x ∷ y ∷ ys else y ∷ rest

-- `points.sort`, which is stable
unfoldable pub sort_points : List Centroid → List Centroid
unfolding insert_point
sort_points [] = []
sort_points (x ∷ xs) = insert_point x (sort_points xs)

-- the loop over the points: the weight before the current centroid, and that centroid
unfoldable pub cluster : Floats → ℕ → ℕ → Centroid → List Centroid → List Centroid
cluster k total before cur [] = cur ∷ []
cluster k total before cur (x ∷ xs) =
    elim (k.span_fits total before (before + (cur.weight + x.weight))) [
      | true ↦ cluster k total before (merge k cur x) xs
      | false ↦ cur ∷ cluster k total (before + cur.weight) x xs
    ]

abbrev pub cluster_all : Floats → ℕ → List Centroid → List Centroid
cluster_all k total [] = []
cluster_all k total (x ∷ xs) = cluster k total 0 x xs

-- the difference of two means, kept as the later and the earlier one, so that it may be negative
abbrev pub gap : Centroid → Centroid → ℕ × ℕ
gap x y = (y.mean, x.mean)

abbrev pub gap_le : ℕ × ℕ → ℕ × ℕ → Bool
gap_le g h = leb (g.0 + h.1) (h.0 + g.1)

-- the first of the narrowest gaps, and its place
unfoldable pub narrowest : Centroid → Centroid → List Centroid → ℕ × (ℕ × ℕ)
narrowest x y [] = (0, gap x y)
narrowest x y (z ∷ zs) =
    let (i, g) = narrowest y z zs in if gap_le (gap x y) g then (0, gap x y) else (suc i, g)

unfoldable pub merge_at : Floats → ℕ → List Centroid → List Centroid
merge_at k i [] = []
merge_at k i (x ∷ []) = x ∷ []
merge_at k zero (x ∷ y ∷ ys) = merge k x y ∷ ys
merge_at k (suc i) (x ∷ y ∷ ys) = x ∷ merge_at k i (y ∷ ys)

-- one round of the `while` loop
unfoldable pub merge_narrowest : Floats → List Centroid → List Centroid
unfolding narrowest merge_at
merge_narrowest k [] = []
merge_narrowest k (x ∷ []) = x ∷ []
merge_narrowest k (x ∷ y ∷ ys) = merge_at k (narrowest x y ys).0 (x ∷ y ∷ ys)

unfoldable pub trim : Floats → ℕ → List Centroid → List Centroid
unfolding merge_narrowest
trim k zero cs = cs
trim k (suc fuel) cs =
    let rest = trim k fuel (merge_narrowest k cs) in
    if ltb max_centroids (length cs) then rest else cs

abbrev pub trim_all : Floats → List Centroid → List Centroid
trim_all k cs = trim k (length cs) cs

abbrev pub merged : Floats → Digest → List Centroid → List Centroid
merged k d points = if d.n == 0 then [] else trim_all k (cluster_all k d.n (sort_points points))

-- `_compress`
unfoldable pub compress : Floats → Digest → Digest
unfolding sort_points cluster trim
compress k d = elim d.b [ [] ↦ d | x ∷ xs ↦ record d { c = merged k d (d.c ++ x ∷ xs); b = [] } ]

abbrev pub lower_of : ℕ → Option ℕ → ℕ
lower_of v none = v
lower_of v (some m) = if ltb v m then v else m

abbrev pub upper_of : ℕ → Option ℕ → ℕ
upper_of v none = v
upper_of v (some m) = if ltb m v then v else m

abbrev pub single : ℕ → Centroid
single v = record { mean = v; weight = 1 }

abbrev pub buffered : ℕ → Digest → Digest
buffered v d = record d {
  n = d.n + 1;
  mn = some (lower_of v d.mn);
  mx = some (upper_of v d.mx);
  b = d.b ++ single v ∷ [];
}

-- `add`
unfoldable pub add : Floats → ℕ → Digest → Digest
unfolding compress
add k v d = let e = buffered v d in if leb buffer_limit (length e.b) then compress k e else e
