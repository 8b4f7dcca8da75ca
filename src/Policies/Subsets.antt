-- ===== src/Policies/Subsets.antt =====
-- A policy holds in every race.
use auto_squid.Policies.{
  known_places, build_racing_tasks_http, has_tag, allows_known, Proxy, Policy, Site, policy_matches,
  policy_allows_proxy, candidates_of, policy_candidate_pids, policy_allows_sticky, initial_count,
  local, is_known, first_batch, prep_http,
}
use auto_squid.Base.{
  ℕ, zero, suc, ◌≡◌, refl, Bool, true, Bool-cases, ◌⊎◌, ◌++◌, inl, inr, any, length, set_add, ◌==◌,
  not, ◌&&◌, ◌||◌, Option, none, some, List, [], ◌∷◌, arith, if_elim, nat_eq, Text, text_eq, take,
  select, contains, pair_eq, option_eq,
}

-- every element passes a test
abbrev pub Each : (Text → Bool) → List Text → Type 0
Each p [] = Unit
Each p (x ∷ xs) = (p x ≡ true) × Each p xs

pub select-Each : (p q : Text → Bool) (xs : List Text) → Each p xs → Each p (select q xs)
unfolding select
select-Each p q [] h = tt
select-Each p q (x ∷ xs) h =
    if_elim (Each p) (q x) (λ _. (h.0, select-Each p q xs h.1)) (λ _. select-Each p q xs h.1)

select-own : (p : Text → Bool) (xs : List Text) → Each p (select p xs)
unfolding select
select-own p [] = tt
select-own p (x ∷ xs) = if_elim (Each p) (p x) (λ ok. (ok, select-own p xs)) (λ _. select-own p xs)

take-Each : (p : Text → Bool) (n : ℕ) (xs : List Text) → Each p xs → Each p (take n xs)
take-Each p zero xs h = tt
take-Each p (suc n) [] h = tt
take-Each p (suc n) (x ∷ xs) h = (h.0, take-Each p n xs h.1)

all-Each : (p : Text → Bool) (xs : List Text) → ((x : Text) → p x ≡ true) → Each p xs
all-Each p [] h = tt
all-Each p (x ∷ xs) h = (h x, all-Each p xs h)

candidates_of-Each :
    (site : Site) (o : Option Policy) (proxies : List Text)
    → Each (λ pid. policy_allows_proxy o (site.get pid)) (candidates_of site o proxies)
unfolding policy_allows_proxy
candidates_of-Each site none proxies = all-Each (λ pid. true) proxies (λ pid. refl)
candidates_of-Each site (some pol) proxies =
    select-own (λ pid. policy_allows_proxy (some pol) (site.get pid)) proxies

first_batch-Each :
    (site : Site) (host : Text) (escape : Bool) (proxies : List Text)
    → Each (policy_allows_sticky site host) proxies
    → Each (policy_allows_sticky site host) (first_batch site host escape proxies)
first_batch-Each site host escape proxies h =
    let batch = take (initial_count site) proxies in
    let rest = take-Each (policy_allows_sticky site host) (initial_count site) proxies h in
    if_elim (Each (policy_allows_sticky site host))
      ((escape || site.enable_local_racing)
        && not (contains local batch)
        && policy_allows_sticky site host local
        && (escape || not site.is_local_open))
      (λ joins. (ground (arith, joins), rest)) (λ _. rest)

append-Each :
    (p : Text → Bool) (x : Text) (xs : List Text) → p x ≡ true → Each p xs → Each p (xs ++ x ∷ [])
append-Each p x [] ok h = (ok, tt)
append-Each p x (y ∷ ys) ok h = (h.0, append-Each p x ys ok h.1)

set_add-Each :
    (p : Text → Bool) (x : Text) (xs : List Text) → p x ≡ true → Each p xs → Each p (set_add x xs)
unfolding set_add
set_add-Each p x xs ok h = if_elim (Each p) (contains x xs) (λ _. h) (λ _. append-Each p x xs ok h)

known_places-Each :
    (site : Site) (p : Text → Bool) (xs : List Text) → Each p xs → Each p (known_places site xs)
unfolding known_places
known_places-Each site p [] h = tt
known_places-Each site p (x ∷ xs) h =
    elim (site.get x)
      as (λ o.
        Each p
          (elim o [ none ↦ known_places site xs | some q ↦ set_add x (known_places site xs) ])) [
            | none ↦ known_places-Each site p xs h.1
            | some q ↦ set_add-Each p x (known_places site xs) h.0 (known_places-Each site p xs h.1)
          ]

-- a policy that names tags or ids is met by a known proxy with one of the ids, or one of the tags
abbrev pub Meets : Policy → Option Proxy → Type 0
Meets pol none = ⊥
Meets pol (some q) = (contains q.id pol.ids ≡ true) ⊎ (any (has_tag q.tags) pol.tags ≡ true)

-- what a policy asks of a proxy: nothing, if it names neither
abbrev pub Permits : Option Policy → Option Proxy → Type 0
Permits none o = Unit
Permits (some pol) o = ((pol.tags ≡ []) × (pol.ids ≡ [])) ⊎ Meets pol o

abbrev pub AllPermitted : Site → Text → List Text → Type 0
AllPermitted site host [] = Unit
AllPermitted site host (x ∷ xs) =
    Permits (policy_matches site host) (site.get x) × AllPermitted site host xs

nil_lem : {A : Type 0} → (xs : List A) → length xs ≡ 0 → xs ≡ []
nil_lem [] h = refl
nil_lem (x ∷ xs) h = absurd (omega (arith, h))

known_lem : (pol : Policy) (o : Option Proxy) → allows_known pol o ≡ true → Meets pol o
known_lem pol none h = absurd (ground (arith, h))
known_lem pol (some q) h = elim (Bool-cases (contains q.id pol.ids)) [
  | inl named ↦ inl named
  | inr other ↦ inr (ground (arith, h, other))
]

permits_lem : (o : Option Policy) (q : Option Proxy) → policy_allows_proxy o q ≡ true → Permits o q
unfolding policy_allows_proxy
permits_lem none q h = tt
permits_lem (some pol) q h = elim (Bool-cases (length pol.tags == 0 && length pol.ids == 0)) [
  | inl free ↦ inl (nil_lem pol.tags (ground (arith, free)), nil_lem pol.ids (ground (arith, free)))
  | inr named ↦ inr (known_lem pol q (ground (arith, h, named)))
]

each_lem :
    (site : Site) (host : Text) (xs : List Text)
    → Each (policy_allows_sticky site host) xs
    → AllPermitted site host xs
unfolding policy_allows_sticky
each_lem site host [] h = tt
each_lem site host (x ∷ xs) h =
    (permits_lem (policy_matches site host) (site.get x) h.0, each_lem site host xs h.1)

-- When the candidates were narrowed by the policy of the host and the places are chosen for that
-- host, every place of a staggered race, at first and later, and of one that is not staggered, the
-- direct connection of the escape included, meets the policy: the policy names neither tags nor ids,
-- or the place is a known proxy with one of the ids or one of the tags.
pub prep_http-Each :
    (site : Site) (proxies : List Text) (host : Text) (escape : Bool)
    → let pids = policy_candidate_pids site host proxies in
      AllPermitted site host (prep_http site pids host escape).0
      × AllPermitted site host (prep_http site pids host escape).1
      × AllPermitted site host (build_racing_tasks_http site pids host escape)
unfolding prep_http policy_candidate_pids policy_allows_sticky build_racing_tasks_http
prep_http-Each site proxies host escape =
    let pids = policy_candidate_pids site host proxies in
    let ok = policy_allows_sticky site host in
    let allowed : Each ok pids = candidates_of-Each site (policy_matches site host) proxies in
    let places = select (is_known site) (first_batch site host escape pids) in
    let first = take site.max_retries pids in
    let known = known_places-Each site ok first (take-Each ok site.max_retries pids allowed) in
    (
      each_lem site host places (
          select-Each ok (is_known site) (first_batch site host escape pids)
            (first_batch-Each site host escape pids allowed)),
      each_lem site host (select (λ pid. not (contains pid places) && is_known site pid) pids)
          (select-Each ok (λ pid. not (contains pid places) && is_known site pid) pids allowed),
      each_lem site host (build_racing_tasks_http site pids host escape) (
          if_elim (Each ok)
            ((escape || site.enable_local_racing)
              && policy_allows_sticky site host local
              && (escape || not site.is_local_open))
            (λ joins. set_add-Each ok local (known_places site first) (ground (arith, joins)) known)
            (λ _. known)),
    )
