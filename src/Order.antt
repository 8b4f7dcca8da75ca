-- ===== src/Order.antt =====
-- The order of the candidates (`_filtered_candidates`, `ordered_proxies`, `ordered_for_domain` and
-- `best_proxy` of auto_squid/selector.py, with the ranks and costs they sort by). Penalties and the
-- power of the load are in hundredths; a weight carries the unit of its factors. `random.shuffle`
-- is an argument. The memory of scores that `_cost_scores` keeps while nothing has changed is left
-- out.
pub mod Costs
pub mod Ranges
pub mod Candidates
pub mod Sorting
pub mod Laws
use auto_squid.Circuit
use auto_squid.Circuit.{Circuits, is_circuit_open, in_slow_start, failure_penalty_mult}
use auto_squid.Concurrency
use auto_squid.Concurrency.{Conc, at_concurrency_limit}
use auto_squid.InFlight.{InFlight, active}
use auto_squid.Selector.{Quality}
use auto_squid.Base.{
  ℕ, ◌*◌, Bool, true, false, not, ◌&&◌, ◌||◌, Option, none, some, List, [], ◌∷◌, ltb, if◌then◌else◌,
  ◌==◌, nat_eq, Text, text_eq, pair_eq, option_eq,
}
use auto_squid.Dict.{Dict, lookup}

pub record Proxy : Type 0 where
  pub id : Text
  pub enabled : Bool

pub record Settings : Type 0 where
  pub circuit : Circuit.Config
  pub conc : Concurrency.Config
  pub fail_penalty_weight : ℕ
  pub lb_bias : ℕ
  pub load_power : ℕ → ℕ
  pub cost_sort : Bool

-- what the order reads
pub record Sources : Type 0 where
  pub circuits : Circuits
  pub concs : Dict Text Conc
  pub in_flight : InFlight
  pub quality : Dict Text Quality
  pub domain_quality : Dict Text (Dict Text Quality)

-- the factor by which load and failures raise a weight
unfoldable pub load_mult : Settings → Sources → Text → ℕ
unfolding failure_penalty_mult active
load_mult cfg s pid =
    let penalty = failure_penalty_mult cfg.fail_penalty_weight pid s.circuits in
    let n = active pid s.in_flight in
    if cfg.lb_bias == 0 || n == 0 then penalty * 100 else penalty * cfg.load_power n

-- the order of the keys: the slow starters, the unknown ones, the weight
pub record Key : Type 0 where
  pub slow : ℕ
  pub unknown : ℕ
  pub weight : ℕ

abbrev pub key_less : Key → Key → Bool
key_less a b =
    ltb a.slow b.slow
    || a.slow == b.slow
      && (ltb a.unknown b.unknown || a.unknown == b.unknown && ltb a.weight b.weight)

abbrev pub digit : Bool → ℕ
digit false = 0
digit true = 1

-- `_slow_start_rank`
unfoldable pub slow_start_rank : Settings → ℕ → Sources → Text → ℕ
unfolding in_slow_start
slow_start_rank cfg now s pid = digit (in_slow_start cfg.circuit now pid s.circuits)

abbrev pub unknown_mark : Option Quality → ℕ
unknown_mark none = 1
unknown_mark (some q) = 0

-- the mark of `_quality_rank`
unfoldable pub quality_rank : Sources → Text → ℕ
quality_rank s pid = unknown_mark (lookup pid s.quality)

abbrev pub weighted : ℕ → Option Quality → ℕ
weighted mult none = 0
weighted mult (some q) = q.ewma_ttfb * mult

-- `_weighted_rank`
unfoldable pub weighted_rank : Settings → Sources → Text → ℕ
unfolding load_mult
weighted_rank cfg s pid = weighted (load_mult cfg s pid) (lookup pid s.quality)

-- the mark of `_domain_quality_rank`
unfoldable pub domain_quality_rank : Sources → Option (Dict Text Quality) → Text → ℕ
unfolding quality_rank
domain_quality_rank s none pid = quality_rank s pid
domain_quality_rank s (some obs) pid = unknown_mark (lookup pid obs)

-- `_domain_weighted_rank`
unfoldable pub domain_weighted_rank : Settings → Sources → Option (Dict Text Quality) → Text → ℕ
unfolding weighted_rank load_mult
domain_weighted_rank cfg s none pid = weighted_rank cfg s pid
domain_weighted_rank cfg s (some obs) pid = weighted (load_mult cfg s pid) (lookup pid obs)

abbrev pub non_empty : Option (Dict Text Quality) → Option (Dict Text Quality)
non_empty none = none
non_empty (some []) = none
non_empty (some (q ∷ d)) = some (q ∷ d)

-- the observations of the domain, if it has any
abbrev pub domain_obs : Sources → Option Text → Option (Dict Text Quality)
domain_obs s none = none
domain_obs s (some domain) = non_empty (lookup domain s.domain_quality)

-- a candidate passes, and what the tests leave behind
abbrev pub Tested : Type 0
Tested = List Text × Circuits × Dict Text Conc

-- `_filtered_candidates`
unfoldable pub filtered : Settings → ℕ → InFlight → List Proxy → Circuits → Dict Text Conc → Tested
unfolding is_circuit_open at_concurrency_limit
filtered cfg now f [] c t = ([], c, t)
filtered cfg now f (p ∷ ps) c t =
    let asked = is_circuit_open now p.id c in
    let limit = at_concurrency_limit cfg.conc f p.id t in
    let skipped = filtered cfg now f ps c t in
    let refused = filtered cfg now f ps asked.1 t in
    let rest = filtered cfg now f ps asked.1 limit.1 in
    if not p.enabled
    then skipped
    else if asked.0
    then refused
    else if limit.0
    then rest
    else (p.id ∷ rest.0, rest.1, rest.2)

unfoldable pub insert_key : (Text → Key) → Text → List Text → List Text
insert_key k x [] = x ∷ []
insert_key k x (y ∷ ys) =
    let rest = insert_key k x ys in if key_less (k y) (k x) then y ∷ rest else x ∷ y ∷ ys

-- `list.sort(key=...)`, which is stable
unfoldable pub sort_key : (Text → Key) → List Text → List Text
unfolding insert_key
sort_key k [] = []
sort_key k (x ∷ xs) = insert_key k x (sort_key k xs)

-- the sources after the filter
abbrev pub with_tested : Sources → Tested → Sources
with_tested s (ids, c, t) = record s { circuits = c; concs = t }

-- `ordered_for_domain`; `scores` are those of `_cost_scores` for the candidates and the domain
unfoldable pub ordered_for_domain :
    Settings
    → ℕ
    → (List Text → List Text)
    → (Sources → List Text → Option Text → Text → ℕ)
    → Option Text
    → List Proxy
    → Sources
    → List Text × Sources
unfolding filtered sort_key slow_start_rank domain_quality_rank domain_weighted_rank
ordered_for_domain cfg now shuffle scores domain ps s =
    let tested = filtered cfg now s.in_flight ps s.circuits s.concs in
    let r = with_tested s tested in
    let ids = shuffle tested.0 in
    let obs = domain_obs s domain in
    (
      (if cfg.cost_sort
          then sort_key
              (λ pid. record {
                slow = slow_start_rank cfg now r pid;
                unknown = domain_quality_rank r obs pid;
                weight = scores r ids domain pid;
              })
              ids
          else sort_key
              (λ pid. record {
                slow = slow_start_rank cfg now r pid;
                unknown = domain_quality_rank r obs pid;
                weight = domain_weighted_rank cfg r obs pid;
              })
              ids),
      r,
    )

-- `ordered_proxies`
unfoldable pub ordered_proxies :
    Settings
    → ℕ
    → (List Text → List Text)
    → (Sources → List Text → Option Text → Text → ℕ)
    → List Proxy
    → Sources
    → List Text × Sources
unfolding filtered sort_key slow_start_rank quality_rank weighted_rank
ordered_proxies cfg now shuffle scores ps s =
    let tested = filtered cfg now s.in_flight ps s.circuits s.concs in
    let r = with_tested s tested in
    let ids = shuffle tested.0 in
    (
      (if cfg.cost_sort
          then sort_key
              (λ pid. record {
                slow = slow_start_rank cfg now r pid;
                unknown = quality_rank r pid;
                weight = scores r ids none pid;
              })
              ids
          else sort_key
              (λ pid. record {
                slow = slow_start_rank cfg now r pid;
                unknown = quality_rank r pid;
                weight = weighted_rank cfg r pid;
              })
              ids),
      r,
    )

abbrev first : List Text → Option Text
first [] = none
first (x ∷ xs) = some x

-- `best_proxy`
unfoldable pub best_proxy :
    Settings
    → ℕ
    → (List Text → List Text)
    → (Sources → List Text → Option Text → Text → ℕ)
    → List Proxy
    → Sources
    → Option Text × Sources
unfolding ordered_proxies
best_proxy cfg now shuffle scores ps s =
    let ordered = ordered_proxies cfg now shuffle scores ps s in (first ordered.0, ordered.1)
