-- ===== src/Order/Laws.antt =====
-- What the order of the candidates is.
use auto_squid.Order.{
  Proxy, Settings, Sources, Key, slow_start_rank, quality_rank, weighted_rank, domain_quality_rank,
  domain_weighted_rank, domain_obs, load_mult, non_empty, digit, unknown_mark, weighted, key_less,
  with_tested, filtered, sort_key, ordered_for_domain, ordered_proxies,
}
use auto_squid.Circuit.{in_slow_start}
use auto_squid.Selector.{Quality}
use auto_squid.Order.Candidates.{ids, fits, filtered_lem}
use auto_squid.Order.Sorting.{times, IsOrdered, NoneLess, times-sort_key, sort_key-IsOrdered}
use auto_squid.Base.{
  ℕ, ◌*◌, sym, some, [], ◌∷◌, ◌≡◌, refl, ap, ◌∙◌, Bool, true, false, Option, none, List, arith,
  if◌then◌else◌, nat_eq, Text, text_eq, select,
}
use auto_squid.Dict.{Dict, lookup}

-- what `_cost_scores` answers
abbrev pub Scores : Type 0
Scores = Sources → List Text → Option Text → Text → ℕ

-- the sources after the filter
abbrev pub tested : Settings → ℕ → List Proxy → Sources → Sources
tested cfg now ps s = with_tested s (filtered cfg now s.in_flight ps s.circuits s.concs)

abbrev pub passed : Settings → ℕ → List Proxy → Sources → List Text
passed cfg now ps s = (filtered cfg now s.in_flight ps s.circuits s.concs).0

abbrev cost_key : Settings → ℕ → Scores → Option Text → List Text → Sources → Sources → Text → Key
cost_key cfg now scores domain cands s r pid = record {
  slow = slow_start_rank cfg now r pid;
  unknown = domain_quality_rank r (domain_obs s domain) pid;
  weight = scores r cands domain pid;
}

abbrev weight_key : Settings → ℕ → Option Text → Sources → Sources → Text → Key
weight_key cfg now domain s r pid = record {
  slow = slow_start_rank cfg now r pid;
  unknown = domain_quality_rank r (domain_obs s domain) pid;
  weight = domain_weighted_rank cfg r (domain_obs s domain) pid;
}

-- what was seen of a proxy: for the domain, if anything was seen there, and else anywhere
abbrev pub seen_at : Sources → Option (Dict Text Quality) → Text → Option Quality
seen_at s none pid = lookup pid s.quality
seen_at s (some []) pid = lookup pid s.quality
seen_at s (some (q ∷ obs)) pid = lookup pid (q ∷ obs)

abbrev pub seen_of : Sources → Option Text → Text → Option Quality
seen_of s none pid = lookup pid s.quality
seen_of s (some domain) pid = seen_at s (lookup domain s.domain_quality) pid

abbrev pub unseen : Option Quality → ℕ
unseen none = 1
unseen (some q) = 0

-- the first-byte time times the load
abbrev pub burden : ℕ → Option Quality → ℕ
burden load none = 0
burden load (some q) = q.ewma_ttfb * load

-- the place that a proxy deserves, `r` being the sources after the filter
abbrev pub deserved : Settings → ℕ → (Text → ℕ) → Option Text → Sources → Sources → Text → Key
deserved cfg now cost domain s r pid = record {
  slow = if in_slow_start cfg.circuit now pid r.circuits then 1 else 0;
  unknown = unseen (seen_of s domain pid);
  weight = if cfg.cost_sort then cost pid else burden (load_mult cfg r pid) (seen_of s domain pid);
}

unseen_lem : (o : Option Quality) → unknown_mark o ≡ unseen o
unseen_lem none = refl
unseen_lem (some q) = refl

burden_lem : (load : ℕ) (o : Option Quality) → weighted load o ≡ burden load o
burden_lem load none = refl
burden_lem load (some q) = refl

slow_lem :
    (cfg : Settings) (now : ℕ) (r : Sources) (pid : Text)
    → slow_start_rank cfg now r pid
      ≡ (if in_slow_start cfg.circuit now pid r.circuits then 1 else 0)
unfolding slow_start_rank
slow_lem cfg now r pid = digit_lem (in_slow_start cfg.circuit now pid r.circuits)
  where
    digit_lem : (b : Bool) → digit b ≡ (if b then 1 else 0)
    digit_lem true = refl
    digit_lem false = refl

unknown_at :
    (r s : Sources) (o : Option (Dict Text Quality)) (pid : Text)
    → r.quality ≡ s.quality
    → domain_quality_rank r (non_empty o) pid ≡ unseen (seen_at s o pid)
unfolding domain_quality_rank quality_rank
unknown_at r s none pid same =
    unseen_lem (lookup pid r.quality) ∙ ap (λ d. unseen (lookup pid d)) same
unknown_at r s (some []) pid same =
    unseen_lem (lookup pid r.quality) ∙ ap (λ d. unseen (lookup pid d)) same
unknown_at r s (some (q ∷ obs)) pid same = unseen_lem (lookup pid (q ∷ obs))

unknown_lem :
    (r s : Sources) (domain : Option Text) (pid : Text)
    → r.quality ≡ s.quality
    → domain_quality_rank r (domain_obs s domain) pid ≡ unseen (seen_of s domain pid)
unknown_lem r s none pid same = unknown_at r s none pid same
unknown_lem r s (some domain) pid same = unknown_at r s (lookup domain s.domain_quality) pid same

weight_at :
    (cfg : Settings) (r s : Sources) (o : Option (Dict Text Quality)) (pid : Text)
    → r.quality ≡ s.quality
    → domain_weighted_rank cfg r (non_empty o) pid ≡ burden (load_mult cfg r pid) (seen_at s o pid)
unfolding domain_weighted_rank weighted_rank
weight_at cfg r s none pid same =
    burden_lem (load_mult cfg r pid) (lookup pid r.quality)
    ∙ ap (λ d. burden (load_mult cfg r pid) (lookup pid d)) same
weight_at cfg r s (some []) pid same =
    burden_lem (load_mult cfg r pid) (lookup pid r.quality)
    ∙ ap (λ d. burden (load_mult cfg r pid) (lookup pid d)) same
weight_at cfg r s (some (q ∷ obs)) pid same =
    burden_lem (load_mult cfg r pid) (lookup pid (q ∷ obs))

weight_lem :
    (cfg : Settings) (r s : Sources) (domain : Option Text) (pid : Text)
    → r.quality ≡ s.quality
    → domain_weighted_rank cfg r (domain_obs s domain) pid
      ≡ burden (load_mult cfg r pid) (seen_of s domain pid)
weight_lem cfg r s none pid same = weight_at cfg r s none pid same
weight_lem cfg r s (some domain) pid same =
    weight_at cfg r s (lookup domain s.domain_quality) pid same

abbrev key : ℕ → ℕ → ℕ → Key
key a b c = record { slow = a; unknown = b; weight = c }

same_key : {a b c d e f : ℕ} → a ≡ d → b ≡ e → c ≡ f → key a b c ≡ key d e f
same_key p q r = λ i. record { slow = p i; unknown = q i; weight = r i }

NoneLess-same :
    (k j : Text → Key) (x : Text) (xs : List Text)
    → ((pid : Text) → k pid ≡ j pid)
    → NoneLess k x xs
    → NoneLess j x xs
NoneLess-same k j x [] same h = tt
NoneLess-same k j x (y ∷ ys) same h =
    (sym (λ i. key_less (same y i) (same x i)) ∙ h.0, NoneLess-same k j x ys same h.1)

IsOrdered-same :
    (k j : Text → Key) (xs : List Text)
    → ((pid : Text) → k pid ≡ j pid)
    → IsOrdered k xs
    → IsOrdered j xs
IsOrdered-same k j [] same h = tt
IsOrdered-same k j (x ∷ xs) same h =
    (NoneLess-same k j x xs same h.0, IsOrdered-same k j xs same h.1)

either_IsOrdered :
    (b : Bool) (k j : Text → Key) (xs : List Text)
    → IsOrdered (if b then k else j) (if b then sort_key k xs else sort_key j xs)
either_IsOrdered true k j xs = sort_key-IsOrdered k xs
either_IsOrdered false k j xs = sort_key-IsOrdered j xs

either_times :
    (b : Bool) (k j : Text → Key) (z : Text) (xs : List Text)
    → times z (if b then sort_key k xs else sort_key j xs) ≡ times z xs
either_times true k j z xs = times-sort_key k z xs
either_times false k j z xs = times-sort_key j z xs

pick :
    (b : Bool) (k j : Text → Key) (pid : Text) (slow unknown cost weight : ℕ)
    → k pid ≡ key slow unknown cost
    → j pid ≡ key slow unknown weight
    → (if b then k else j) pid ≡ key slow unknown (if b then cost else weight)
pick true k j pid slow unknown cost weight p q = p
pick false k j pid slow unknown cost weight p q = q

-- With a shuffle that permutes, the order for a domain holds exactly the candidates that are enabled,
-- whose circuit is not open and that may take another request, each as often as in the store. The
-- slow starters stand behind the others, within these the ones never seen behind those that were, and
-- then the larger cost or, without the cost order, the larger first-byte time times load behind the
-- smaller. What was seen is what was seen at the domain, or anywhere if nothing was seen there.
pub ordered_for_domain_lem :
    (cfg : Settings) (now : ℕ) (shuffle : List Text → List Text) (scores : Scores)
    (domain : Option Text) (ps : List Proxy) (s : Sources)
    → ((z : Text) (xs : List Text) → times z (shuffle xs) ≡ times z xs)
    → IsOrdered
        (deserved cfg now
          (scores (tested cfg now ps s) (shuffle (passed cfg now ps s)) domain)
          domain
          s
          (tested cfg now ps s))
        (ordered_for_domain cfg now shuffle scores domain ps s).0
      × ((z : Text)
          → times z (ordered_for_domain cfg now shuffle scores domain ps s).0
            ≡ times z (ids (select (fits cfg now s.in_flight s.circuits s.concs) ps)))
unfolding ordered_for_domain
ordered_for_domain_lem cfg now shuffle scores domain ps s fair =
    let xs = shuffle (passed cfg now ps s) in
    let r = tested cfg now ps s in
    let k = cost_key cfg now scores domain xs s r in
    let j = weight_key cfg now domain s r in
    let cost = scores r xs domain in
    let same : (pid : Text)
        → (if cfg.cost_sort then k else j) pid ≡ deserved cfg now cost domain s r pid =
      λ pid.
        let seen = seen_of s domain pid in
        pick cfg.cost_sort k j pid (if in_slow_start cfg.circuit now pid r.circuits then 1 else 0)
          (unseen seen) (cost pid) (burden (load_mult cfg r pid) seen)
          (same_key (slow_lem cfg now r pid) (unknown_lem r s domain pid refl) refl)
          (same_key (slow_lem cfg now r pid) (unknown_lem r s domain pid refl)
            (weight_lem cfg r s domain pid refl)) in
    (
      IsOrdered-same (if cfg.cost_sort then k else j) (deserved cfg now cost domain s r)
          (if cfg.cost_sort then sort_key k xs else sort_key j xs) same
          (either_IsOrdered cfg.cost_sort k j xs),
      λ z.
          either_times cfg.cost_sort k j z xs
          ∙ (fair z (passed cfg now ps s)
              ∙ ap (times z) (filtered_lem cfg now s.in_flight ps s.circuits s.concs)),
    )

without_costs :
    (b : Bool) (k k' j : Text → Key) (xs : List Text)
    → b ≡ false
    → (if b then sort_key k xs else sort_key j xs) ≡ (if b then sort_key k' xs else sort_key j xs)
without_costs true k k' j xs off = absurd (ground (arith, off))
without_costs false k k' j xs off = refl

-- Without the cost order, a domain that has no observations gets the order that ordered_proxies
-- gives, and so does a request without a domain.
pub ordered_for_domain-ordered_proxies :
    (cfg : Settings) (now : ℕ) (shuffle : List Text → List Text) (scores : Scores)
    (domain : Option Text) (ps : List Proxy) (s : Sources)
    → cfg.cost_sort ≡ false
    → domain_obs s domain ≡ none
    → ordered_for_domain cfg now shuffle scores domain ps s
      ≡ ordered_proxies cfg now shuffle scores ps s
unfolding ordered_for_domain ordered_proxies domain_quality_rank domain_weighted_rank
ordered_for_domain-ordered_proxies cfg now shuffle scores domain ps s off unseen =
    let xs = shuffle (passed cfg now ps s) in
    let r = tested cfg now ps s in
    let base : (Text → ℕ) → (Text → ℕ) → Text → Key =
      λ u w pid. record { slow = slow_start_rank cfg now r pid; unknown = u pid; weight = w pid } in
    let wrap : List Text → List Text × Sources = λ l. (l, r) in
    let from : Option (Dict Text Quality) → List Text × Sources = λ o. wrap (
      if cfg.cost_sort
      then sort_key (base (domain_quality_rank r o) (scores r xs domain)) xs
      else sort_key (base (domain_quality_rank r o) (domain_weighted_rank cfg r o)) xs) in
    ap from unseen
    ∙ ap wrap (
        without_costs cfg.cost_sort (base (quality_rank r) (scores r xs domain))
          (base (quality_rank r) (scores r xs none)) (base (quality_rank r) (weighted_rank cfg r))
          xs off)
