-- ===== src/Tests/Sessions.antt =====
-- The stickiness table at concrete inputs.
use auto_squid.Sticky.{Entry, Sticky, Router, get_sticky_proxy, prune_sticky}
use auto_squid.Sticky.Validity.{IsValid}
use auto_squid.Sticky.Histories.{
  answer_all, answer_all-IsValid, get, record_winner, bump, prune, evict, Call,
}
use auto_squid.Sticky.Reads.{may_serve, get_sticky_proxy_lem}
use auto_squid.Sticky.Sweep.{is_swept, prune_sticky-lookup}
use auto_squid.Base.{
  ℕ, ◌≡◌, refl, true, false, not, none, some, List, [], ◌∷◌, arith, if◌then◌else◌, ◌==◌, nat_eq,
  text_eq, text_beq, pair_eq, option_eq, text,
}
use auto_squid.Dict.{lookup}
use auto_squid.Dict.Laws.{kept}

-- a router in which every proxy but "q" is usable
abbrev router : Router
router = record {
  usable = λ pid. not (pid == text "q");
  is_circuit_open = λ _. false;
  has_policies = false;
  policy_allows_sticky = λ _ _. true;
  single_send_degraded = λ _ _ _. false;
  best_domain_ewma = λ _ _. none;
  domain_ewma = λ _ _. none;
  worse_than_best = λ _ _. false;
  ref_ewma_for = λ _ _. none;
  ratio_num = 3;
  ratio_den = 2;
  slack = 50_000;
  now_utc = text "t";
}

abbrev older : Entry
older = record {
  proxy_id = text "p";
  updated_at = text "t";
  updated_mono = 5;
  hits = 1;
  ref_ewma = none;
}

abbrev newer : Entry
newer = record older { proxy_id = text "q"; updated_mono = 9 }

abbrev two : Sticky
two = record {
  enabled = true;
  ttl = 1_800_000_000;
  recheck_hits = 100;
  max_entries = 2;
  enable_local_racing = false;
  probe_interval = 0;
  probe_last = [];
  cache = (text "a|d", older) ∷ (text "b|d", newer) ∷ [];
  last_prune = 0;
  evictions = 0;
  slow_probes = 0;
  degraded = [];
}

two-IsValid : IsValid 10 two
unfolding lookup text_beq
two-IsValid = record {
  distinct = (refl, (refl, tt));
  ordered = ((omega arith, tt), (tt, tt));
  before = (omega arith, (omega arith, tt));
  few = omega arith;
}

abbrev calls : List (ℕ × Call)
calls =
    (1, get router (text "a") (text "d"))
    ∷ (2, record_winner router (text "c") (text "d") (text "r"))
    ∷ (0, bump router (text "a") (text "d") (text "p"))
    ∷ (7, prune router)
    ∷ (1, evict (text "c") (text "d"))
    ∷ []

answer_all-IsValid_example : IsValid (answer_all calls 10 two).0 (answer_all calls 10 two).1
answer_all-IsValid_example = answer_all-IsValid calls 10 two two-IsValid

get_sticky_proxy_example :
    (get_sticky_proxy router (text "a") (text "d") 20 two).0
    ≡ (if may_serve router (text "d") 20 two older then some (text "p") else none)
unfolding lookup text_beq
get_sticky_proxy_example = get_sticky_proxy_lem router (text "a") (text "d") 20 two older refl refl

prune_sticky-lookup_example :
    lookup (text "b|d") (prune_sticky router 20 two).cache
    ≡ kept (λ e. not (is_swept router 20 two e)) (lookup (text "b|d") two.cache)
prune_sticky-lookup_example = prune_sticky-lookup router 20 (text "b|d") two two-IsValid.distinct
