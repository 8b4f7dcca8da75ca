-- ===== src/DomainCache/Lifetimes.antt =====
-- The adaptive lifetime of a domain's entry stays in its range.
use auto_squid.DomainCache.{Settings, DomainCache, or_else_ttl, domain_ttl, adapt_ttl, settle_ttl}
use auto_squid.Base.{
  ℕ, ◌*◌, ◌/◌, ◌≤◌, min, ◌≡◌, true, some, arith, if◌then◌else◌, ◌==◌, nat_eq, Text, text_eq,
  pair_eq, option_eq, beq_refl, refl, Option, none,
}
use auto_squid.Dict.{lookup, put}
use auto_squid.Dict.Laws.{lookup-put}

-- the lifetime that a win leaves
abbrev next_ttl : Settings → Text → Text → Option Text → DomainCache → ℕ
next_ttl c domain pid last s =
    if last == some pid
    then min c.ttl_max (or_else_ttl c.cache_ttl (lookup domain s.domain_ttls) * 3 / 2)
    else c.ttl_min

settle_ttl-put :
    (c : Settings) (domain pid : Text) (last : Option Text) (s : DomainCache)
    → (settle_ttl c domain pid last s).domain_ttls
      ≡ put domain (next_ttl c domain pid last s) s.domain_ttls
unfolding settle_ttl
settle_ttl-put c domain pid none s = refl
settle_ttl-put c domain pid (some prev) s = ground arith

-- A win with the adaptive lifetime on leaves the domain's lifetime between the configured minimum and
-- maximum, at most half as long again as before after a win of the same proxy, and at the minimum
-- after a switch or a first win. The lifetime before must be no shorter than the minimum.
pub domain_ttl-adapt_ttl :
    (c : Settings) (domain pid : Text) (s : DomainCache)
    → c.adaptive_ttl_enabled ≡ true
    → c.ttl_min ≤ c.ttl_max
    → c.ttl_min ≤ domain_ttl c domain s
    → (c.ttl_min ≤ domain_ttl c domain (adapt_ttl c domain pid s))
      × (domain_ttl c domain (adapt_ttl c domain pid s) ≤ c.ttl_max)
      × (domain_ttl c domain (adapt_ttl c domain pid s) ≤ (
          if lookup domain s.last_pid == some pid
          then domain_ttl c domain s * 3 / 2
          else c.ttl_min))
unfolding domain_ttl adapt_ttl
domain_ttl-adapt_ttl c domain pid s on range low = ground (
  arith,
  on,
  range,
  low,
  settle_ttl-put c domain pid (lookup domain s.last_pid) s,
  lookup-put domain domain (next_ttl c domain pid (lookup domain s.last_pid) s) s.domain_ttls,
  beq_refl domain,
)
