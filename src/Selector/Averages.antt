-- ===== src/Selector/Averages.antt =====
-- The moving average of the first-byte time.
use auto_squid.Selector.{Quality, apply_ewma}
use auto_squid.Base.{
  ℕ, ◌+◌, ◌*◌, ◌/◌, ◌≤◌, ◌≡◌, some, List, [], ◌∷◌, arith, nat_eq, Text, text_eq, none, beq_refl,
  all,
}
use auto_squid.Dict.{Dict, lookup, put}
use auto_squid.Dict.Laws.{lookup-put}

-- fold a list of first-byte times of one proxy
unfoldable pub observe_all : Text → List ℕ → Dict Text Quality → Dict Text Quality
observe_all pid [] t = t
observe_all pid (x ∷ xs) t = observe_all pid xs (apply_ewma pid x t).1

abbrev pub AllBetween : ℕ → ℕ → List ℕ → Type 0
AllBetween lo hi [] = Unit
AllBetween lo hi (x ∷ xs) = (lo ≤ x) × (x ≤ hi) × AllBetween lo hi xs

blend-between :
    (lo hi a x : ℕ)
    → lo ≤ a
    → a ≤ hi
    → lo ≤ x
    → x ≤ hi
    → (lo ≤ (7 * a + 3 * x) / 10) × ((7 * a + 3 * x) / 10 ≤ hi)
blend-between lo hi a x p q r s = (omega (arith, p, r), omega (arith, q, s))

-- the average of a proxy, 0 if it has none
unfoldable pub average : Text → Dict Text Quality → ℕ
average pid t = elim (lookup pid t) [ none ↦ 0 | some q ↦ q.ewma_ttfb ]

lookup-apply_ewma :
    (pid : Text) (x : ℕ) (q : Quality) (t : Dict Text Quality)
    → lookup pid t ≡ some q
    → lookup pid (apply_ewma pid x t).1
      ≡ some (record q { ewma_ttfb = (7 * q.ewma_ttfb + 3 * x) / 10; obs = q.obs + 1 })
unfolding apply_ewma
lookup-apply_ewma pid x q t h =
    let q' : Quality = record q { ewma_ttfb = (7 * q.ewma_ttfb + 3 * x) / 10; obs = q.obs + 1 } in
    ground (arith, h, lookup-put pid pid q' t, beq_refl pid)

-- the average after more observations of a proxy that has one
observe_all_within :
    (lo hi : ℕ) (pid : Text) (xs : List ℕ) (q : Quality) (t : Dict Text Quality)
    → lookup pid t ≡ some q
    → lo ≤ q.ewma_ttfb
    → q.ewma_ttfb ≤ hi
    → AllBetween lo hi xs
    → (lo ≤ average pid (observe_all pid xs t)) × (average pid (observe_all pid xs t) ≤ hi)
unfolding observe_all average
observe_all_within lo hi pid [] q t h low high all =
    (ground (arith, h, low), ground (arith, h, high))
observe_all_within lo hi pid (x ∷ xs) q t h low high all =
    let next = blend-between lo hi q.ewma_ttfb x low high all.0 all.1 in
    observe_all_within lo hi pid xs
      (record q { ewma_ttfb = (7 * q.ewma_ttfb + 3 * x) / 10; obs = q.obs + 1 })
      (apply_ewma pid x t).1 (lookup-apply_ewma pid x q t h) next.0 next.1 all.2

-- The average first-byte time of a proxy that had none lies between any bounds on the times that were
-- observed of it.
pub observe_all-between :
    (lo hi : ℕ) (pid : Text) (x : ℕ) (xs : List ℕ) (t : Dict Text Quality)
    → lookup pid t ≡ none
    → AllBetween lo hi (x ∷ xs)
    → (lo ≤ average pid (observe_all pid (x ∷ xs) t))
      × (average pid (observe_all pid (x ∷ xs) t) ≤ hi)
unfolding observe_all apply_ewma
observe_all-between lo hi pid x xs t new all =
    let q : Quality = record { ewma_ttfb = x; obs = 1; ts = 0 } in
    let same : (apply_ewma pid x t).1 ≡ put pid q t = ground (arith, new) in
    rw same (
      observe_all_within lo hi pid xs q (put pid q t)
        (ground (arith, lookup-put pid pid q t, beq_refl pid)) all.0 all.1 all.2)
