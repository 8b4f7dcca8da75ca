-- ===== src/Tests/Domains.antt =====
-- The domain cache at concrete inputs.
use auto_squid.DomainCache.{Meta, Settings, DomainCache, Peers, much_faster, damping_allows_switch}
use auto_squid.Degrade.{Thresholds, Readings}
use auto_squid.DomainCache.Damping.{challenge, challenge_blocked}
use auto_squid.Base.{
  ◌≡◌, refl, true, false, none, some, [], ◌∷◌, arith, nat_eq, text_eq, text_beq, pair_eq, option_eq,
  text,
}
use auto_squid.Dict.{lookup}

abbrev settings : Settings
settings = record {
  damping_enabled = true;
  damping_num = 1;
  damping_den = 2;
  damping_abs = 0;
  min_wins = 3;
  adaptive_ttl_enabled = true;
  ttl_min = 60;
  ttl_max = 600;
  cache_ttl = 300;
  degrade_num = 2;
  degrade_den = 1;
  slack = 50;
}

abbrev peers : Peers
peers = record {
  known = λ _. true;
  is_circuit_open = λ _. false;
  ewma = λ _. some 100;
  domain_quality = λ _ _. none;
  best_domain_ewma = λ _ _. none;
  best_proxy = none;
  ref_ewma_for = λ _ _. none;
  single_send_degraded = λ _ _ _. false;
  has_policies = false;
  policy_allows_sticky = λ _ _. true;
  now_utc = text "t";
  age_of = λ _. none;
}

abbrev champion : Meta
champion = record {
  default_proxy = text "p";
  updated_at = text "t";
  updated_mono = some 1000;
  ref_ewma = none;
}

abbrev domains : DomainCache
domains = record {
  meta = (text "d", champion) ∷ [];
  damping_wins = [];
  fast_swaps = 0;
  blocks = 0;
  domain_ttls = (text "d", 500) ∷ [];
  last_pid = (text "d", text "p") ∷ [];
  switch_count = [];
  ttl_grows = 0;
  ttl_resets = 0;
  marks = record { until = []; degraded = []; degrades = 0 };
  targets = record { ttl = 0; table = []; marked = 0 };
  meta_dirty = false;
}

challenge_blocked_example :
    ((damping_allows_switch settings peers
        (text "d")
        (text "q")
        (challenge settings peers (text "d") (text "q") 5 domains)).0
      ≡ false)
    × (lookup (text "d") (challenge settings peers (text "d") (text "q") 5 domains).meta
        ≡ some champion)
unfolding lookup text_beq much_faster
challenge_blocked_example =
    challenge_blocked settings peers (text "d") (text "q") 5 domains champion refl refl refl refl
      refl (omega arith) (omega arith)

abbrev thresholds : Thresholds
thresholds = record {
  fail = 2;
  ratio_num = 2;
  ratio_den = 1;
  slack = 50;
  success_num = 1;
  success_den = 2;
  p99 = 9000;
  min_throughput = 10;
}

abbrev readings : Readings
readings = record {
  consec_fail = 1;
  in_domain = some (record { ewma = some 900; obs = 1 });
  anywhere = none;
  outcomes = some (record {
    total = 3;
    success = 0;
    ttfb_p99 = some 99_999;
    ofb_p99 = none;
    throughput = some 1;
  });
}
