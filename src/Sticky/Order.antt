-- ===== src/Sticky/Order.antt =====
-- The order of the stickiness table: the entries stand from the longest unused to the most recent.
use auto_squid.Sticky.{Entry}
use auto_squid.Base.{
  ℕ, ◌≤◌, ◌≡◌, some, [], ◌∷◌, ◌++◌, arith, if_elim, ◌==◌, nat_eq, Text, text_eq, pair_eq, option_eq,
}
use auto_squid.Dict.{Dict, lookup, remove}

-- every entry was refreshed at `u` or later
abbrev pub After : ℕ → Dict Text Entry → Type 0
After u [] = Unit
After u ((k, e) ∷ d) = (u ≤ e.updated_mono) × After u d

-- no entry was refreshed after `now`
abbrev pub Before : ℕ → Dict Text Entry → Type 0
Before now [] = Unit
Before now ((k, e) ∷ d) = (e.updated_mono ≤ now) × Before now d

abbrev pub Ordered : Dict Text Entry → Type 0
Ordered [] = Unit
Ordered ((k, e) ∷ d) = After e.updated_mono d × Ordered d

After-remove : (u : ℕ) (key : Text) (d : Dict Text Entry) → After u d → After u (remove key d)
unfolding remove
After-remove u key [] h = tt
After-remove u key ((k, e) ∷ d) h =
    if_elim (After u) (k == key) (λ _. After-remove u key d h.1)
      (λ _. (h.0, After-remove u key d h.1))

pub Before-remove :
    (now : ℕ) (key : Text) (d : Dict Text Entry) → Before now d → Before now (remove key d)
unfolding remove
Before-remove now key [] h = tt
Before-remove now key ((k, e) ∷ d) h =
    if_elim (Before now) (k == key) (λ _. Before-remove now key d h.1)
      (λ _. (h.0, Before-remove now key d h.1))

pub Ordered-remove : (key : Text) (d : Dict Text Entry) → Ordered d → Ordered (remove key d)
unfolding remove
Ordered-remove key [] h = tt
Ordered-remove key ((k, e) ∷ d) h =
    if_elim Ordered (k == key) (λ _. Ordered-remove key d h.1)
      (λ _. (After-remove e.updated_mono key d h.0, Ordered-remove key d h.1))

After-snoc :
    (u : ℕ) (key : Text) (e : Entry) (d : Dict Text Entry)
    → After u d
    → u ≤ e.updated_mono
    → After u (d ++ (key, e) ∷ [])
After-snoc u key e [] h le = (le, tt)
After-snoc u key e ((k, i) ∷ d) h le = (h.0, After-snoc u key e d h.1 le)

pub Ordered-snoc :
    (key : Text) (e : Entry) (d : Dict Text Entry)
    → Ordered d
    → Before e.updated_mono d
    → Ordered (d ++ (key, e) ∷ [])
Ordered-snoc key e [] h b = (tt, tt)
Ordered-snoc key e ((k, i) ∷ d) h b =
    (After-snoc i.updated_mono key e d h.0 b.0, Ordered-snoc key e d h.1 b.1)

pub Before-snoc :
    (now : ℕ) (key : Text) (e : Entry) (d : Dict Text Entry)
    → Before now d
    → e.updated_mono ≤ now
    → Before now (d ++ (key, e) ∷ [])
Before-snoc now key e [] h le = (le, tt)
Before-snoc now key e ((k, i) ∷ d) h le = (h.0, Before-snoc now key e d h.1 le)

pub Before-≤ : (t now : ℕ) (d : Dict Text Entry) → t ≤ now → Before t d → Before now d
Before-≤ t now [] le h = tt
Before-≤ t now ((k, e) ∷ d) le h = (omega (arith, h.0, le), Before-≤ t now d le h.1)

-- in an ordered table the first entry was refreshed no later than any other
pub After-lookup :
    (u : ℕ) (key : Text) (e : Entry) (d : Dict Text Entry)
    → After u d
    → lookup key d ≡ some e
    → u ≤ e.updated_mono
unfolding lookup
After-lookup u key e [] h found = ground (arith, found)
After-lookup u key e ((k, i) ∷ d) h found = ground (arith, After-lookup u key e d h.1, h.0, found)
