-- ===== src/Order/Sorting.antt =====
-- The order by keys.
use auto_squid.Order.{Key, key_less, insert_key, sort_key}
use auto_squid.Base.{
  ℕ, ◌+◌, ◌≡◌, refl, true, false, List, [], ◌∷◌, arith, if◌then◌else◌, if_elim, ◌==◌, nat_eq, Text,
  text_eq, pair_eq, option_eq,
}

-- how often a proxy stands in a list
unfoldable pub times : Text → List Text → ℕ
times x [] = 0
times x (y ∷ ys) = (if y == x then 1 else 0) + times x ys

-- no later one has a smaller key
abbrev pub NoneLess : (Text → Key) → Text → List Text → Type 0
NoneLess k x [] = Unit
NoneLess k x (y ∷ ys) = (key_less (k y) (k x) ≡ false) × NoneLess k x ys

abbrev pub IsOrdered : (Text → Key) → List Text → Type 0
IsOrdered k [] = Unit
IsOrdered k (x ∷ xs) = NoneLess k x xs × IsOrdered k xs

times-insert_key :
    (k : Text → Key) (z x : Text) (xs : List Text) → times z (insert_key k x xs) ≡ times z (x ∷ xs)
unfolding times insert_key
times-insert_key k z x [] = refl
times-insert_key k z x (y ∷ ys) = ground (arith, times-insert_key k z x ys)

pub times-sort_key :
    (k : Text → Key) (z : Text) (xs : List Text) → times z (sort_key k xs) ≡ times z xs
unfolding times sort_key
times-sort_key k z [] = refl
times-sort_key k z (x ∷ xs) =
    ground (arith, times-insert_key k z x (sort_key k xs), times-sort_key k z xs)

less_trans : (a b c : Key) → key_less b a ≡ false → key_less c b ≡ false → key_less c a ≡ false
less_trans a b c h g = ground (arith, h, g)

less_asym : (a b : Key) → key_less a b ≡ true → key_less b a ≡ false
less_asym a b h = ground (arith, h)

NoneLess-trans :
    (k : Text → Key) (x y : Text) (ys : List Text)
    → key_less (k y) (k x) ≡ false
    → NoneLess k y ys
    → NoneLess k x ys
NoneLess-trans k x y [] h n = tt
NoneLess-trans k x y (z ∷ zs) h n =
    (less_trans (k x) (k y) (k z) h n.0, NoneLess-trans k x y zs h n.1)

NoneLess-insert_key :
    (k : Text → Key) (z x : Text) (xs : List Text)
    → key_less (k x) (k z) ≡ false
    → NoneLess k z xs
    → NoneLess k z (insert_key k x xs)
unfolding insert_key
NoneLess-insert_key k z x [] h n = (h, tt)
NoneLess-insert_key k z x (y ∷ ys) h n =
    if_elim (NoneLess k z) (key_less (k y) (k x)) (λ _. (n.0, NoneLess-insert_key k z x ys h n.1))
      (λ _. (h, n))

insert_key-IsOrdered :
    (k : Text → Key) (x : Text) (xs : List Text) → IsOrdered k xs → IsOrdered k (insert_key k x xs)
unfolding insert_key
insert_key-IsOrdered k x [] h = (tt, tt)
insert_key-IsOrdered k x (y ∷ ys) h =
    if_elim (IsOrdered k) (key_less (k y) (k x))
      (λ below. (
        NoneLess-insert_key k y x ys (less_asym (k y) (k x) below) h.0,
        insert_key-IsOrdered k x ys h.1,
      ))
      (λ above. ((above, NoneLess-trans k x y ys above h.0), h))

pub sort_key-IsOrdered : (k : Text → Key) (xs : List Text) → IsOrdered k (sort_key k xs)
unfolding sort_key
sort_key-IsOrdered k [] = tt
sort_key-IsOrdered k (x ∷ xs) = insert_key-IsOrdered k x (sort_key k xs) (sort_key-IsOrdered k xs)
