-- ===== src/Digest/Summary.antt =====
-- A digest against the samples that it stands for.
use auto_squid.Base.{
  ℕ, ◌+◌, ◌≤◌, ◌<◌, ◌≡◌, refl, ◌∙◌, Bool, true, Option, none, some, List, [], ◌∷◌, ◌++◌, arith, leb,
  if_elim, ◌==◌, nat_eq, text_eq, pair_eq, option_eq, length, all, contains, sym, subst, zero, suc,
}
use auto_squid.Digest.{
  Centroid, Digest, Floats, new_digest, max_centroids, buffer_limit, sort_points, cluster_all,
  merged, compress, lower_of, upper_of, single, buffered, add,
}
use auto_squid.Digest.Merging.{
  total, total-append, total-sort_points, Additive, total-cluster_all, total-trim, length-trim_all,
}

-- the first argument is one of the samples, and none is on its wrong side
abbrev pub IsExtreme : (ℕ → ℕ → Bool) → Option ℕ → List ℕ → Type 0
IsExtreme le none vs = vs ≡ []
IsExtreme le (some m) vs = (contains m vs ≡ true) × (all (le m) vs ≡ true)

abbrev pub geb : ℕ → ℕ → Bool
geb m v = leb v m

-- what the centroids and the buffer hold together
abbrev pub held : (Centroid → ℕ) → Digest → ℕ
held f d = total f d.c + total f d.b

pub record IsSummary (vs : List ℕ) (d : Digest) : Type 0 where
  pub counted : d.n ≡ length vs
  pub weighed : held (λ (x : Centroid). x.weight) d ≡ length vs
  pub centroids : length d.c ≤ max_centroids
  pub buffer : length d.b < buffer_limit
  pub lowest : IsExtreme leb d.mn vs
  pub highest : IsExtreme geb d.mx vs

total-merged :
    (f : Centroid → ℕ) (k : Floats) (d : Digest) (points : List Centroid)
    → Additive k f
    → 0 < d.n
    → total f (merged k d points) ≡ total f points
total-merged f k d points adds pos =
    if_elim (λ r. total f r ≡ total f points) (d.n == 0) (λ z. absurd (ground (arith, z, pos)))
      (λ _.
        let made = cluster_all k d.n (sort_points points) in
        total-trim k f (length made) made adds
        ∙ (total-cluster_all f k d.n (sort_points points) adds ∙ total-sort_points f points))

length-merged :
    (k : Floats) (d : Digest) (points : List Centroid) → length (merged k d points) ≤ max_centroids
length-merged k d points =
    if_elim (λ (r : List Centroid). length r ≤ max_centroids) (d.n == 0) (λ _. omega arith)
      (λ _. length-trim_all k (cluster_all k d.n (sort_points points)))

-- what compressing leaves, for a buffer that may be full
record IsCompressed (k : Floats) (e d : Digest) : Type 0 where
  pub same_n : e.n ≡ d.n
  pub same_mn : e.mn ≡ d.mn
  pub same_mx : e.mx ≡ d.mx
  pub emptied : e.b ≡ []
  pub few : length e.c ≤ max_centroids
  pub holds : (f : Centroid → ℕ) → Additive k f → held f e ≡ held f d

compressed_lem :
    (k : Floats) (c b : List Centroid) (n : ℕ) (mn mx : Option ℕ)
    → 0 < n
    → length c ≤ max_centroids
    → IsCompressed k
        (compress k (record { c = c; b = b; n = n; mn = mn; mx = mx }))
        (record { c = c; b = b; n = n; mn = mn; mx = mx })
unfolding compress
compressed_lem k c [] n mn mx pos few = record {
  same_n = refl;
  same_mn = refl;
  same_mx = refl;
  emptied = refl;
  few = few;
  holds = λ f adds. refl;
}
compressed_lem k c (x ∷ xs) n mn mx pos few =
    let d : Digest = record { c = c; b = x ∷ xs; n = n; mn = mn; mx = mx } in
    record {
      same_n = refl;
      same_mn = refl;
      same_mx = refl;
      emptied = refl;
      few = length-merged k d (c ++ x ∷ xs);
      holds = λ f adds.
          omega (arith, total-merged f k d (c ++ x ∷ xs) adds pos, total-append f c (x ∷ xs));
    }

compress-IsCompressed :
    (k : Floats) (d : Digest)
    → 0 < d.n
    → length d.c ≤ max_centroids
    → IsCompressed k (compress k d) d
compress-IsCompressed k d pos few = compressed_lem k d.c d.b d.n d.mn d.mx pos few

all_lower : (m n : ℕ) (vs : List ℕ) → n ≤ m → all (leb m) vs ≡ true → all (leb n) vs ≡ true
all_lower m n [] le h = refl
all_lower m n (v ∷ vs) le h = ground (arith, le, h, all_lower m n vs)

all_upper : (m n : ℕ) (vs : List ℕ) → m ≤ n → all (geb m) vs ≡ true → all (geb n) vs ≡ true
all_upper m n [] le h = refl
all_upper m n (v ∷ vs) le h = ground (arith, le, h, all_upper m n vs)

add_lower :
    (v : ℕ) (o : Option ℕ) (vs : List ℕ)
    → IsExtreme leb o vs
    → IsExtreme leb (some (lower_of v o)) (v ∷ vs)
unfolding contains
add_lower v none [] h = (ground arith, ground arith)
add_lower v none (w ∷ vs) h = absurd (ground (arith, h))
add_lower v (some m) vs (found, least) =
    (ground (arith, found), ground (arith, least, all_lower m v vs))

add_upper :
    (v : ℕ) (o : Option ℕ) (vs : List ℕ)
    → IsExtreme geb o vs
    → IsExtreme geb (some (upper_of v o)) (v ∷ vs)
unfolding contains
add_upper v none [] h = (ground arith, ground arith)
add_upper v none (w ∷ vs) h = absurd (ground (arith, h))
add_upper v (some m) vs (found, greatest) =
    (ground (arith, found), ground (arith, greatest, all_upper m v vs))

-- a summary but for a buffer that may be full
record IsFilled (vs : List ℕ) (d : Digest) : Type 0 where
  some_n : 0 < d.n
  counted : d.n ≡ length vs
  weighed : held (λ (x : Centroid). x.weight) d ≡ length vs
  centroids : length d.c ≤ max_centroids
  lowest : IsExtreme leb d.mn vs
  highest : IsExtreme geb d.mx vs

buffered-IsFilled :
    (v : ℕ) (vs : List ℕ) (d : Digest) → IsSummary vs d → IsFilled (v ∷ vs) (buffered v d)
buffered-IsFilled v vs d h = record {
  some_n = omega arith;
  counted = omega (arith, h.counted);
  weighed = omega (arith, h.weighed, total-append (λ (x : Centroid). x.weight) d.b (single v ∷ []));
  centroids = h.centroids;
  lowest = add_lower v d.mn vs h.lowest;
  highest = add_upper v d.mx vs h.highest;
}

compress-IsSummary :
    (k : Floats) (vs : List ℕ) (d : Digest) → IsFilled vs d → IsSummary vs (compress k d)
compress-IsSummary k vs d h =
    let e = compress-IsCompressed k d h.some_n h.centroids in
    record {
      counted = e.same_n ∙ h.counted;
      weighed = e.holds (λ (x : Centroid). x.weight) (λ x y. refl) ∙ h.weighed;
      centroids = e.few;
      buffer = subst (λ (b : List Centroid). length b < buffer_limit) (sym e.emptied) (omega arith);
      lowest = subst (λ o. IsExtreme leb o vs) (sym e.same_mn) h.lowest;
      highest = subst (λ o. IsExtreme geb o vs) (sym e.same_mx) h.highest;
    }

add-IsSummary :
    (k : Floats) (v : ℕ) (vs : List ℕ) (d : Digest)
    → IsSummary vs d
    → IsSummary (v ∷ vs) (add k v d)
unfolding add
add-IsSummary k v vs d h =
    let filled = buffered-IsFilled v vs d h in
    if_elim (IsSummary (v ∷ vs)) (leb buffer_limit (length (buffered v d).b))
      (λ _. compress-IsSummary k (v ∷ vs) (buffered v d) filled)
      (λ room. record {
        counted = filled.counted;
        weighed = filled.weighed;
        centroids = filled.centroids;
        buffer = ground (arith, room);
        lowest = filled.lowest;
        highest = filled.highest;
      })

-- a digest of no samples stays empty
still_empty :
    (k : Floats) (c b : List Centroid) (n : ℕ) (mn mx : Option ℕ)
    → IsSummary [] (record { c = c; b = b; n = n; mn = mn; mx = mx })
    → IsSummary [] (compress k (record { c = c; b = b; n = n; mn = mn; mx = mx }))
unfolding compress
still_empty k c [] n mn mx h = h
still_empty k c (x ∷ xs) (suc n) mn mx h = absurd (omega (arith, h.counted))
still_empty k c (x ∷ xs) zero mn mx h = record {
  counted = refl;
  weighed = refl;
  centroids = omega arith;
  buffer = omega arith;
  lowest = h.lowest;
  highest = h.highest;
}

query-IsSummary :
    (k : Floats) (vs : List ℕ) (d : Digest) → IsSummary vs d → IsSummary vs (compress k d)
query-IsSummary k [] d h = still_empty k d.c d.b d.n d.mn d.mx h
query-IsSummary k (v ∷ vs) d h = compress-IsSummary k (v ∷ vs) d (record {
  some_n = omega (arith, h.counted);
  counted = h.counted;
  weighed = h.weighed;
  centroids = h.centroids;
  lowest = h.lowest;
  highest = h.highest;
})

-- a sample that is added, or a question, which compresses first
pub data Event : Type 0 where
  sample : ℕ → Event
  question : Event

unfoldable pub run : Floats → List Event → Digest → Digest
run k [] d = d
run k (sample v ∷ es) d = run k es (add k v d)
run k (question ∷ es) d = run k es (compress k d)

-- the samples, the last one first
abbrev pub seen : List Event → List ℕ → List ℕ
seen [] vs = vs
seen (sample v ∷ es) vs = seen es (v ∷ vs)
seen (question ∷ es) vs = seen es vs

run_lem :
    (k : Floats) (es : List Event) (vs : List ℕ) (d : Digest)
    → IsSummary vs d
    → IsSummary (seen es vs) (run k es d)
unfolding run
run_lem k [] vs d h = h
run_lem k (sample v ∷ es) vs d h = run_lem k es (v ∷ vs) (add k v d) (add-IsSummary k v vs d h)
run_lem k (question ∷ es) vs d h = run_lem k es vs (compress k d) (query-IsSummary k vs d h)

-- However samples and questions alternate, and whatever the floating-point steps of a compression
-- give, a digest that began empty stands for all samples: its count and the weights it holds are their
-- number, and its bounds are the least and the greatest of them. It never holds more than 96 centroids
-- and 31 samples that wait.
pub run-IsSummary : (k : Floats) (es : List Event) → IsSummary (seen es []) (run k es new_digest)
run-IsSummary k es = run_lem k es [] new_digest (record {
  counted = refl;
  weighed = refl;
  centroids = omega arith;
  buffer = omega arith;
  lowest = refl;
  highest = refl;
})
