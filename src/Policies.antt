-- ===== src/Policies.antt =====
-- Routing policies and the places of a race (`_normalize_host`, `_policy_matches`,
-- `_policy_allows_proxy`, `_policy_candidate_pids`, `_policy_allows_sticky`, `_stagger_initial`,
-- `_prep_http`, `_prep_connect`, `_build_racing_tasks_http` and `_build_racing_tasks_connect` of
-- auto_squid/router.py). A compiled regular expression is a test
-- on texts, and stands with the policy that its index points to.
pub mod Subsets
pub mod Coverage
use auto_squid.Base.{
  ℕ, min, max, Bool, true, false, not, ◌&&◌, ◌||◌, Option, none, some, List, [], ◌∷◌, leb,
  if◌then◌else◌, ◌==◌, nat_eq, Text, text_eq, text_beq, pair_eq, option_eq, length, take, any, all,
  select, contains, text, lower, split_once, split_last, strip, set_add,
}
use auto_squid.Dict.{Dict, lookup}

pub record Policy : Type 0 where
  pub domain_exact : List Text
  pub domain_suffix : List Text
  pub tags : Dict Text Text
  pub ids : List Text

pub record Proxy : Type 0 where
  pub id : Text
  pub tags : Dict Text Text

-- the configuration and what the store and the selector answer
pub record Site : Type 0 where
  pub policies : List Policy
  pub policy_regexes : List ((Text → Bool) × Policy)
  pub get : Text → Option Proxy
  pub has_quality : Bool
  pub max_retries : ℕ
  pub stagger_initial : ℕ
  pub enable_local_racing : Bool
  pub is_local_open : Bool

abbrev pub is_digit : ℕ → Bool
is_digit c = leb b'0' c && leb c b'9'

-- `str.isdigit` on texts of code points below 128
abbrev pub all_digits : Text → Bool
all_digits [] = false
all_digits (c ∷ s) = all is_digit (c ∷ s)

abbrev pub drop_dot : ℕ → Text → Text
drop_dot c [] = if c == b'.' then [] else c ∷ []
drop_dot c (d ∷ s) = c ∷ d ∷ s

-- `rstrip('.')`
unfoldable pub strip_dots : Text → Text
strip_dots [] = []
strip_dots (c ∷ s) = let rest = strip_dots s in drop_dot c rest

abbrev pub without_port : Text → Option (Text × Text) → Text
without_port h none = h
without_port h (some (head, tail)) = if all_digits tail then head else h

-- what stands between the brackets, if they are closed
abbrev pub between : Text → Option (Text × Text) → Text
between h none = without_port h (split_last b':' h)
between h (some (host, rest)) = host

abbrev pub bare_host : Text → Text
bare_host [] = []
bare_host (c ∷ h) =
    if c == b'['
    then between (c ∷ h) (split_once b']' h)
    else without_port (c ∷ h) (split_last b':' (c ∷ h))

-- `_normalize_host`
unfoldable pub normalize_host : Text → Text
unfolding strip_dots
normalize_host host = strip_dots (bare_host (lower (strip host)))

-- `s.endswith(p)`
unfoldable pub ends_with : Text → Text → Bool
ends_with p [] = text_beq p []
ends_with p (c ∷ s) = text_beq p (c ∷ s) || ends_with p s

unfoldable pub first_match : Text → List Policy → Option Policy
unfolding ends_with
first_match h [] = none
first_match h (p ∷ ps) =
    let rest = first_match h ps in
    if contains h p.domain_exact || any (λ suffix. ends_with (lower suffix) h) p.domain_suffix
    then some p
    else rest

unfoldable pub first_regex : Text → List ((Text → Bool) × Policy) → Option Policy
first_regex h [] = none
first_regex h ((rx, p) ∷ ps) = let rest = first_regex h ps in if rx h then some p else rest

abbrev pub or_regex : Option Policy → Option Policy → Option Policy
or_regex none later = later
or_regex (some p) later = some p

-- `_policy_matches`
unfoldable pub policy_matches : Site → Text → Option Policy
unfolding first_match first_regex normalize_host
policy_matches site host =
    let h = normalize_host host in
    if length site.policies == 0
    then none
    else or_regex (first_match h site.policies) (first_regex h site.policy_regexes)

abbrev pub has_tag : Dict Text Text → Text × Text → Bool
has_tag tags (k, v) = elim (lookup k tags) [ none ↦ false | some w ↦ w == v ]

-- a policy that names tags or ids
abbrev pub allows_known : Policy → Option Proxy → Bool
allows_known pol none = false
allows_known pol (some p) = contains p.id pol.ids || any (has_tag p.tags) pol.tags

-- `_policy_allows_proxy`
unfoldable pub policy_allows_proxy : Option Policy → Option Proxy → Bool
policy_allows_proxy none proxy = true
policy_allows_proxy (some pol) proxy =
    if length pol.tags == 0 && length pol.ids == 0 then true else allows_known pol proxy

abbrev pub candidates_of : Site → Option Policy → List Text → List Text
candidates_of site none proxies = proxies
candidates_of site (some pol) proxies =
    select (λ pid. policy_allows_proxy (some pol) (site.get pid)) proxies

-- `_policy_candidate_pids`
unfoldable pub policy_candidate_pids : Site → Text → List Text → List Text
unfolding policy_matches policy_allows_proxy
policy_candidate_pids site host proxies = candidates_of site (policy_matches site host) proxies

-- `_policy_allows_sticky`
unfoldable pub policy_allows_sticky : Site → Text → Text → Bool
unfolding policy_matches policy_allows_proxy
policy_allows_sticky site host pid = policy_allows_proxy (policy_matches site host) (site.get pid)

-- `_stagger_initial`
unfoldable pub initial_count : Site → ℕ
initial_count site =
    if not site.has_quality
    then min site.max_retries (max 2 site.stagger_initial)
    else site.stagger_initial

abbrev pub local : Text
local = text "local"

abbrev pub is_known : Site → Text → Bool
is_known site pid = pid == local || elim (site.get pid) [ none ↦ false | some p ↦ true ]

-- the first batch before the unknown proxies are taken out
abbrev pub first_batch : Site → Text → Bool → List Text → List Text
first_batch site host escape proxies =
    let batch = take (initial_count site) proxies in
    if (escape || site.enable_local_racing)
      && not (contains local batch)
      && policy_allows_sticky site host local
      && (escape || not site.is_local_open)
    then local ∷ batch
    else batch

-- `_prep_http`: the first batch of a race, and the places that are launched later
unfoldable pub prep_http : Site → List Text → Text → Bool → List Text × List Text
unfolding initial_count policy_allows_sticky
prep_http site proxies host escape =
    let places = select (is_known site) (first_batch site host escape proxies) in
    (places, select (λ pid. not (contains pid places) && is_known site pid) proxies)

-- the set in the comprehension of the builders
unfoldable pub known_places : Site → List Text → List Text
known_places site [] = []
known_places site (pid ∷ pids) =
    let rest = known_places site pids in
    elim (site.get pid) [ none ↦ rest | some p ↦ set_add pid rest ]

-- `_build_racing_tasks_http`: the places of a race that is not staggered
unfoldable pub build_racing_tasks_http : Site → List Text → Text → Bool → List Text
unfolding known_places policy_allows_sticky
build_racing_tasks_http site proxies host escape =
    let places = known_places site (take site.max_retries proxies) in
    if (escape || site.enable_local_racing)
      && policy_allows_sticky site host local
      && (escape || not site.is_local_open)
    then set_add local places
    else places

abbrev pub with_target : Text → List Text → List (Text × Text)
with_target target [] = []
with_target target (pid ∷ pids) = (pid, target) ∷ with_target target pids

-- `_prep_connect`
unfoldable pub prep_connect :
    Site → List Text → Text → Bool → List (Text × Text) × List (Text × Text)
unfolding prep_http
prep_connect site proxies target escape =
    let (places, rest) = prep_http site proxies target escape in
    (with_target target places, with_target target rest)

-- `_build_racing_tasks_connect`
unfoldable pub build_racing_tasks_connect : Site → List Text → Text → Bool → List (Text × Text)
unfolding build_racing_tasks_http
build_racing_tasks_connect site proxies target escape =
    with_target target (build_racing_tasks_http site proxies target escape)
