-- ===== src/Base/Splitting.antt =====
-- Splitting texts: `split(c, 1)`, `rsplit(c, 1)`, `split(c)`, `strip` and `find`.
use Prim.Native.Nat.{ℕ}
use mathlib.Core.Path.{◌≡◌, subst}
use mathlib.Core.Bool.{Bool, false, ◌&&◌, ◌||◌}
use mathlib.Core.Option.{Option, none, some}
use mathlib.Core.List.{[], ◌∷◌, ◌++◌}
use native.Mathlib.Omega.{arith}
use auto_squid.Base.Tests.{leb, nat_beq_iff, if◌then◌else◌, if_elim}
use auto_squid.Base.Equality.{Text, ◌==◌, nat_eq}
use auto_squid.Base.Lists.{contains}

abbrev pub cons_left : ℕ → Option (Text × Text) → Option (Text × Text)
cons_left c none = none
cons_left c (some (s, t)) = some (c ∷ s, t)

-- the parts before and after the first `c`
unfoldable pub split_once : ℕ → Text → Option (Text × Text)
split_once c [] = none
split_once c (d ∷ s) =
    let rest = split_once c s in if d == c then some ([], s) else cons_left d rest

abbrev pub or_here : Option (Text × Text) → Option (Text × Text) → Option (Text × Text)
or_here none here = here
or_here (some p) here = some p

-- the parts before and after the last `c`
unfoldable pub split_last : ℕ → Text → Option (Text × Text)
split_last c [] = none
split_last c (d ∷ s) =
    let rest = split_last c s in or_here (cons_left d rest) (if d == c then some ([], s) else none)

-- the blanks of `str.strip` among the code points below 256
abbrev pub is_blank : ℕ → Bool
is_blank c = c == 32 || leb 9 c && leb c 13 || leb 28 c && leb c 31 || c == 133 || c == 160

-- the blanks of `bytes.strip`
abbrev pub is_byte_blank : ℕ → Bool
is_byte_blank c = c == 32 || leb 9 c && leb c 13

unfoldable pub strip_left : (ℕ → Bool) → Text → Text
strip_left blank [] = []
strip_left blank (c ∷ s) = let rest = strip_left blank s in if blank c then rest else c ∷ s

abbrev pub drop_blank : (ℕ → Bool) → ℕ → Text → Text
drop_blank blank c [] = if blank c then [] else c ∷ []
drop_blank blank c (d ∷ s) = c ∷ d ∷ s

unfoldable pub strip_right : (ℕ → Bool) → Text → Text
strip_right blank [] = []
strip_right blank (c ∷ s) = let rest = strip_right blank s in drop_blank blank c rest

-- `str.strip`
unfoldable pub strip : Text → Text
unfolding strip_left strip_right
strip s = strip_right is_blank (strip_left is_blank s)

-- `bytes.strip`
unfoldable pub strip_bytes : Text → Text
unfolding strip_left strip_right
strip_bytes s = strip_right is_byte_blank (strip_left is_byte_blank s)

pub split_once-append :
    (c : ℕ) (s t : Text) → contains c s ≡ false → split_once c (s ++ c ∷ t) ≡ some (s, t)
unfolding split_once contains
split_once-append c [] t h = ground (arith, nat_beq_iff c c)
split_once-append c (d ∷ s) t h = ground (arith, h, split_once-append c s t)

abbrev Joins : ℕ → Text → Option (Text × Text) → Type 0
Joins c s none = Unit
Joins c s (some (a, b)) = s ≡ a ++ c ∷ b

cons_left-Joins :
    (c d : ℕ) (s : Text) (o : Option (Text × Text)) → Joins c s o → Joins c (d ∷ s) (cons_left d o)
cons_left-Joins c d s none h = tt
cons_left-Joins c d s (some (a, b)) h = ground (arith, h)

split_once-Joins : (c : ℕ) (s : Text) → Joins c s (split_once c s)
unfolding split_once
split_once-Joins c [] = tt
split_once-Joins c (d ∷ s) =
    if_elim (Joins c (d ∷ s)) (d == c) (λ same. ground (arith, (nat_beq_iff d c).0 same))
      (λ _. cons_left-Joins c d s (split_once c s) (split_once-Joins c s))

-- the parts make up the text
pub split_once_lem : (c : ℕ) (s a b : Text) → split_once c s ≡ some (a, b) → s ≡ a ++ c ∷ b
split_once_lem c s a b h = subst (Joins c s) h (split_once-Joins c s)
