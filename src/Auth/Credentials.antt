-- ===== src/Auth/Credentials.antt =====
-- Who is let in.
use auto_squid.Auth.{
  Answer, allowed, required, unsupported, failed, malformed, find_header, is_ascii, compare_digest,
  judged, compare_pair, check_decoded, check_parts, check_header, check_auth,
}
use auto_squid.Base.{
  ◌≡◌, Bool, true, false, Option, none, some, ◌∷◌, ◌++◌, nat_eq, Text, text_eq, refl, ap, inl, inr,
  not, List, [], arith, if◌then◌else◌, Bool-cases, subst, ◌==◌, pair_eq, option_eq, all, contains,
  text, lower, split_once, split_once_lem, ◌∙◌, beq_refl, split_once-append, false≢true,
}

-- the answer lets the client in
abbrev is_allowed : Answer → Bool
is_allowed allowed = true
is_allowed required = false
is_allowed unsupported = false
is_allowed failed = false
is_allowed malformed = false

-- what must have been sent: a header whose decoded part is the name, a colon and the password
abbrev pub Presents : (Text → Option Text) → Text → Text → Text → Type 0
Presents decode user password header =
    (info : Text) × (scheme : Text) × (header ≡ scheme ++ b' ' ∷ info)
    × (decode info ≡ some (user ++ b':' ∷ password))

-- only `allowed` is let in
abbrev Kept : Answer → Type 0
Kept a = is_allowed a ≡ true

judged_sound :
    (o : Option Bool) (next : Answer) → Kept (judged o next) → (o ≡ some true) × Kept next
judged_sound none next h = absurd (ground (arith, h))
judged_sound (some false) next h = absurd (ground (arith, h))
judged_sound (some true) next h = (refl, h)

digest_sound : (s t : Text) → compare_digest s t ≡ some true → s ≡ t
unfolding compare_digest
digest_sound s t h = ground (arith, h, text_eq.beq_iff s t)

pair_sound :
    (user password : Text) (o : Option (Text × Text))
    → Kept (compare_pair user password o)
    → o ≡ some (user, password)
unfolding compare_pair
pair_sound user password none h = absurd (ground (arith, h))
pair_sound user password (some (u, p)) h =
    let first =
      judged_sound (compare_digest u user) (judged (compare_digest p password) allowed) h in
    let second = judged_sound (compare_digest p password) allowed first.1 in
    ground (arith, digest_sound u user first.0, digest_sound p password second.0)

decoded_sound :
    (user password : Text) (o : Option Text)
    → Kept (check_decoded user password o)
    → o ≡ some (user ++ b':' ∷ password)
decoded_sound user password none h = absurd (ground (arith, h))
decoded_sound user password (some decoded) h = ap some (
    split_once_lem b':' decoded user password
      (pair_sound user password (split_once b':' decoded) h))

parts_sound :
    (decode : Text → Option Text) (user password header : Text) (o : Option (Text × Text))
    → split_once b' ' header ≡ o
    → Kept (check_parts decode user password o)
    → Presents decode user password header
unfolding check_parts
parts_sound decode user password header none at h = absurd (ground (arith, h))
parts_sound decode user password header (some (scheme, info)) at h =
    elim (Bool-cases (lower scheme == text "basic")) [
      | inl basic ↦ (
        info,
        scheme,
        split_once_lem b' ' header scheme info at,
        decoded_sound user password (decode info) (
            subst
              (λ b. Kept (if not b then unsupported else check_decoded user password (decode info)))
              basic h),
      )
      | inr other ↦ absurd (
          false≢true (
            subst
              (λ b. Kept (if not b then unsupported else check_decoded user password (decode info)))
              other h))
    ]

header_sound :
    (decode : Text → Option Text) (user password : Text) (o : Option Text)
    → Kept (check_header decode user password o)
    → (header : Text) × (o ≡ some header) × Presents decode user password header
header_sound decode user password none h = absurd (ground (arith, h))
header_sound decode user password (some []) h = absurd (ground (arith, h))
header_sound decode user password (some (c ∷ t)) h =
    (c ∷ t, refl, parts_sound decode user password (c ∷ t) (split_once b' ' (c ∷ t)) refl h)

-- When authentication is on, a client is let in only if the header that the check reads carries,
-- after its scheme, what decodes to the expected name, a colon and the expected password. No header,
-- text or decoder makes the check answer otherwise.
pub check_auth_sound :
    (decode : Text → Option Text) (headers : List (Text × Text)) (user password : Text)
    → check_auth decode headers true user password ≡ allowed
    → (header : Text) × (find_header headers none ≡ some header)
      × Presents decode user password header
unfolding check_auth
check_auth_sound decode headers user password h =
    header_sound decode user password (find_header headers none) (ap is_allowed h)

found_lem :
    (before after : List (Text × Text)) (k v : Text) (found : Option Text)
    → lower k ≡ text "proxy-authorization"
    → all (λ (h : Text × Text). not (lower h.0 == text "proxy-authorization")) before ≡ true
    → find_header (before ++ (k, v) ∷ after) found ≡ some v
unfolding find_header
found_lem [] after k v found named others =
    ground (arith, (text_eq.beq_iff (lower k) (text "proxy-authorization")).1 named)
found_lem ((j, w) ∷ before) after k v found named others = ground (
  arith,
  others,
  found_lem before after k v found named,
  found_lem before after k v (some w) named,
)

some_header :
    (decode : Text → Option Text) (user password scheme info : Text)
    → check_header decode user password (some (scheme ++ b' ' ∷ info))
      ≡ check_parts decode user password (split_once b' ' (scheme ++ b' ' ∷ info))
some_header decode user password [] info = refl
some_header decode user password (c ∷ scheme) info = refl

right_pair :
    (user password : Text)
    → is_ascii user ≡ true
    → is_ascii password ≡ true
    → compare_pair user password (some (user, password)) ≡ allowed
unfolding compare_pair compare_digest
right_pair user password a b = ground (arith, a, b, beq_refl user, beq_refl password)

right_parts :
    (decode : Text → Option Text) (user password scheme info : Text)
    → lower scheme ≡ text "basic"
    → decode info ≡ some (user ++ b':' ∷ password)
    → contains b':' user ≡ false
    → is_ascii user ≡ true
    → is_ascii password ≡ true
    → check_parts decode user password (some (scheme, info)) ≡ allowed
unfolding check_parts
right_parts decode user password scheme info basic decoded colon a b =
    let same = (text_eq.beq_iff (lower scheme) (text "basic")).1 basic in
    ap (λ t. if not t then unsupported else check_decoded user password (decode info)) same
    ∙ (ap (check_decoded user password) decoded
        ∙ (ap (compare_pair user password) (split_once-append b':' user password colon)
            ∙ right_pair user password a b))

-- A client that sends the expected name and password is let in: the header is called
-- `Proxy-Authorization` and its scheme `Basic` in any case of their letters, only headers that are
-- not called so stand before it, the decoder undoes the encoder, the name has no colon, and name and
-- password are ASCII.
pub check_auth_complete :
    (decode : Text → Option Text) (encode : Text → Text) (before after : List (Text × Text))
    (k scheme user password : Text)
    → ((t : Text) → decode (encode t) ≡ some t)
    → lower k ≡ text "proxy-authorization"
    → lower scheme ≡ text "basic"
    → contains b' ' scheme ≡ false
    → all (λ (h : Text × Text). not (lower h.0 == text "proxy-authorization")) before ≡ true
    → contains b':' user ≡ false
    → is_ascii user ≡ true
    → is_ascii password ≡ true
    → check_auth decode
        (before ++ (k, scheme ++ b' ' ∷ encode (user ++ b':' ∷ password)) ∷ after)
        true
        user
        password
      ≡ allowed
unfolding check_auth
check_auth_complete decode encode before after k scheme user password undo named basic whole others
      colon a b =
    let info = encode (user ++ b':' ∷ password) in
    ap (check_header decode user password)
      (found_lem before after k (scheme ++ b' ' ∷ info) none named others)
    ∙ (some_header decode user password scheme info
        ∙ (ap (check_parts decode user password) (split_once-append b' ' scheme info whole)
            ∙ right_parts decode user password scheme info basic (undo (user ++ b':' ∷ password))
                colon a b))
