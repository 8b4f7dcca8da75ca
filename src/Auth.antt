-- ===== src/Auth.antt =====
-- The check of a client's credentials (`check_auth` of auto_squid/auth.py). A text is the list of its
-- code points. What the decoders of base64 and UTF-8 make of a text is an argument, `none` where they
-- raise; `hmac.compare_digest` raises on texts with code points above 127.
pub mod Credentials
use auto_squid.Base.{
  ℕ, Bool, true, false, not, ◌&&◌, Option, none, some, List, [], ◌∷◌, ltb, if◌then◌else◌, ◌==◌,
  nat_eq, Text, text_eq, pair_eq, option_eq, all, text, lower, split_once,
}

pub data Answer : Type 0 where
  allowed required unsupported failed malformed : Answer

-- the loop over the headers: `Proxy-Authorization`, or else the last `Authorization`
unfoldable pub find_header : List (Text × Text) → Option Text → Option Text
find_header [] found = found
find_header ((k, v) ∷ hs) found =
    if lower k == text "proxy-authorization"
    then some v
    else if lower k == text "authorization"
    then find_header hs (some v)
    else find_header hs found

abbrev pub is_ascii : Text → Bool
is_ascii s = all (λ c. ltb c 128) s

-- `hmac.compare_digest`
unfoldable pub compare_digest : Text → Text → Option Bool
compare_digest s t = if is_ascii s && is_ascii t then some (s == t) else none

abbrev pub judged : Option Bool → Answer → Answer
judged none next = malformed
judged (some false) next = failed
judged (some true) next = next

-- the names and passwords that were split at the colon
unfoldable pub compare_pair : Text → Text → Option (Text × Text) → Answer
unfolding compare_digest
compare_pair user password none = malformed
compare_pair user password (some (u, p)) =
    judged (compare_digest u user) (judged (compare_digest p password) allowed)

abbrev pub check_decoded : Text → Text → Option Text → Answer
check_decoded user password none = malformed
check_decoded user password (some decoded) = compare_pair user password (split_once b':' decoded)

-- the header, split at its first blank
unfoldable pub check_parts : (Text → Option Text) → Text → Text → Option (Text × Text) → Answer
unfolding compare_pair
check_parts decode user password none = malformed
check_parts decode user password (some (scheme, info)) =
    if not (lower scheme == text "basic")
    then unsupported
    else check_decoded user password (decode info)

abbrev pub check_header : (Text → Option Text) → Text → Text → Option Text → Answer
check_header decode user password none = required
check_header decode user password (some []) = required
check_header decode user password (some (c ∷ h)) =
    check_parts decode user password (split_once b' ' (c ∷ h))

-- `check_auth`
unfoldable pub check_auth : (Text → Option Text) → List (Text × Text) → Bool → Text → Text → Answer
unfolding find_header check_parts
check_auth decode headers enabled user password =
    if not enabled then allowed else check_header decode user password (find_header headers none)
