-- ===== src/DomainCache/Hits.antt =====
-- When the domain cache answers.
use auto_squid.DeadTarget.{is_send_degraded}
use auto_squid.DomainCache.{
  Meta, Settings, DomainCache, Peers, domain_ttl, is_fresh, get_fresh_proxy,
}
use auto_squid.Base.{
  ℕ, ◌≡◌, not, ◌&&◌, ◌||◌, none, some, arith, if◌then◌else◌, nat_eq, Text, text_eq,
}
use auto_squid.Dict.{lookup}

-- A lookup of a domain with a pinned proxy returns that proxy exactly if the policies allow it, its
-- circuit is closed, it carries no mark for the domain, it is not degraded and the entry is younger
-- than the domain's lifetime. In all other cases it returns nothing.
pub get_fresh_proxy_lem :
    (c : Settings) (p : Peers) (domain : Text) (now : ℕ) (s : DomainCache) (m : Meta)
    → lookup domain s.meta ≡ some m
    → (get_fresh_proxy c p domain now s).0 ≡ (
        if (not p.has_policies || p.policy_allows_sticky domain m.default_proxy)
          && not (p.is_circuit_open m.default_proxy)
          && not (is_send_degraded m.default_proxy domain now s.marks).0
          && not (p.single_send_degraded domain m.default_proxy m.ref_ewma)
          && is_fresh p (domain_ttl c domain s) now m
        then some m.default_proxy
        else none)
unfolding get_fresh_proxy
get_fresh_proxy_lem c p domain now s m found = ground (arith, found)
