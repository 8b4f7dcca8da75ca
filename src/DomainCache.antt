-- ===== src/DomainCache.antt =====
-- The domain cache of the router (auto_squid/router.py): which proxy last won for a domain, the
-- damping of switches and the adaptive lifetime (`_get_fresh_proxy`, `_domain_ttl`,
-- `_damping_allows_switch`, `_worse_than_best` and `_record_win_meta`). Times are microseconds of the
-- monotonic clock, read once in each call. What the selector, the proxy store and the policies answer
-- during a call is the record `Peers`; `age_of` stands for the age of an ISO time that
-- `datetime.fromisoformat` parses, `none` where it raises.
pub mod Lifetimes
pub mod Damping
pub mod Hits
use auto_squid.DeadTarget.{Marks, Targets, is_send_degraded, clear_dead_target}
use auto_squid.Base.{
  ℕ, ◌+◌, ◌*◌, ◌/◌, min, Bool, true, false, not, ◌&&◌, ◌||◌, Option, none, some, [], ◌∷◌, ltb, leb,
  if◌then◌else◌, ◌==◌, nat_eq, Text, text_eq, pair_eq, option_eq, set_add, set_discard, text,
}
use auto_squid.Dict.{Dict, lookup, put, remove}

pub record Meta : Type 0 where
  pub default_proxy : Text
  pub updated_at : Text
  pub updated_mono : Option ℕ
  pub ref_ewma : Option ℕ

pub record Settings : Type 0 where
  pub damping_enabled : Bool
  pub damping_num : ℕ
  pub damping_den : ℕ
  pub damping_abs : ℕ
  pub min_wins : ℕ
  pub adaptive_ttl_enabled : Bool
  pub ttl_min : ℕ
  pub ttl_max : ℕ
  pub cache_ttl : ℕ
  pub degrade_num : ℕ
  pub degrade_den : ℕ
  pub slack : ℕ

pub record DomainCache : Type 0 where
  pub meta : Dict Text Meta
  pub damping_wins : Dict Text (Dict Text ℕ)
  pub fast_swaps : ℕ
  pub blocks : ℕ
  pub domain_ttls : Dict Text ℕ
  pub last_pid : Dict Text Text
  pub switch_count : Dict Text ℕ
  pub ttl_grows : ℕ
  pub ttl_resets : ℕ
  pub marks : Marks
  pub targets : Targets
  pub meta_dirty : Bool

pub record Peers : Type 0 where
  pub known : Text → Bool
  pub is_circuit_open : Text → Bool
  pub ewma : Text → Option ℕ
  pub domain_quality : Text → Text → Option (Option ℕ)
  pub best_domain_ewma : Text → Text → Option (Text × ℕ)
  pub best_proxy : Option Text
  pub ref_ewma_for : Text → Text → Option ℕ
  pub single_send_degraded : Text → Text → Option ℕ → Bool
  pub has_policies : Bool
  pub policy_allows_sticky : Text → Text → Bool
  pub now_utc : Text
  pub age_of : Text → Option ℕ

-- the comparison of two averages that makes a switch immediate
unfoldable pub much_faster : Settings → Option ℕ → Option ℕ → Bool
much_faster c (some new) (some old) =
    not (old == 0)
    && (not (c.damping_num == 0) && leb (new * c.damping_den) (old * c.damping_num)
        || not (c.damping_abs == 0) && leb (new + c.damping_abs) old)
much_faster c none old = false
much_faster c (some new) none = false

abbrev pub or_empty : Option (Dict Text ℕ) → Dict Text ℕ
or_empty none = []
or_empty (some d) = d

abbrev pub or_else_ttl : ℕ → Option ℕ → ℕ
or_else_ttl d none = d
or_else_ttl d (some t) = t

-- the count of wins in a row, at the end of `_damping_allows_switch`
unfoldable pub count_win : Settings → Text → Text → DomainCache → Bool × DomainCache
count_win c domain pid s =
    let wins = or_else_ttl 0 (lookup pid (or_empty (lookup domain s.damping_wins))) in
    if leb c.min_wins (wins + 1)
    then (true, record s { damping_wins = put domain ((pid, 0) ∷ []) s.damping_wins })
    else (
      false,
      record s { damping_wins = put domain ((pid, 1) ∷ []) s.damping_wins; blocks = s.blocks + 1 },
    )

-- `_damping_allows_switch`
unfoldable pub damping_allows_switch :
    Settings → Peers → Text → Text → DomainCache → Bool × DomainCache
unfolding much_faster count_win
damping_allows_switch c p domain pid s =
    if not c.damping_enabled then (true, s) else elim (lookup domain s.meta) [
      | none ↦ (true, s)
      | some m ↦
          if m.default_proxy == pid
          then (true, s)
          else if not (m.default_proxy == text "local")
              && (not (p.known m.default_proxy) || p.is_circuit_open m.default_proxy)
          then (true, s)
          else if much_faster c (p.ewma pid) (p.ewma m.default_proxy)
          then (true, record s { fast_swaps = s.fast_swaps + 1 })
          else count_win c domain pid s
    ]

-- the comparison of an average with the best one
unfoldable pub much_slower : Settings → ℕ → ℕ → Bool
much_slower c cur best =
    ltb (best * c.degrade_num) (cur * c.degrade_den) && ltb (best + c.slack) cur

-- `_worse_than_best` without any observation in the domain
unfoldable pub worse_than_best_anywhere : Settings → Peers → Text → Bool
unfolding much_slower
worse_than_best_anywhere c p pid = elim (p.ewma pid) [
  | none ↦ false
  | some cur ↦ elim p.best_proxy [
    | none ↦ false
    | some best ↦ if best == pid then false else elim (p.ewma best) [
      | none ↦ false
      | some b ↦ if b == 0 then false else much_slower c cur b
    ]
  ]
]

-- `_worse_than_best`
unfoldable pub worse_than_best : Settings → Peers → Text → Text → Bool
unfolding worse_than_best_anywhere
worse_than_best c p domain pid =
    if c.degrade_num == 0 then false else elim (p.domain_quality domain pid) [
      | none ↦ worse_than_best_anywhere c p pid
      | some none ↦ false
      | some (some cur) ↦ elim (p.best_domain_ewma domain pid) [
        | none ↦ false
        | some (_, best) ↦ much_slower c cur best
      ]
    ]

-- `_domain_ttl`
unfoldable pub domain_ttl : Settings → Text → DomainCache → ℕ
domain_ttl c domain s =
    if not c.adaptive_ttl_enabled
    then c.cache_ttl
    else or_else_ttl c.cache_ttl (lookup domain s.domain_ttls)

-- the lifetime after a win, by the last winner: it grows by half with each win in a row and falls
-- back on a switch
unfoldable pub settle_ttl : Settings → Text → Text → Option Text → DomainCache → DomainCache
settle_ttl c domain pid none s = record s { domain_ttls = put domain c.ttl_min s.domain_ttls }
settle_ttl c domain pid (some prev) s =
    let cur = or_else_ttl c.cache_ttl (lookup domain s.domain_ttls) in
    let grown = min c.ttl_max (cur * 3 / 2) in
    if prev == pid
    then record s {
      ttl_grows = if ltb cur grown then s.ttl_grows + 1 else s.ttl_grows;
      domain_ttls = put domain grown s.domain_ttls;
    }
    else record s {
      switch_count = put domain (or_else_ttl 0 (lookup domain s.switch_count) + 1) s.switch_count;
      ttl_resets = s.ttl_resets + 1;
      domain_ttls = put domain c.ttl_min s.domain_ttls;
    }

-- the adaptive part of `_record_win_meta`
unfoldable pub adapt_ttl : Settings → Text → Text → DomainCache → DomainCache
unfolding settle_ttl
adapt_ttl c domain pid s =
    let settled = settle_ttl c domain pid (lookup domain s.last_pid) s in
    record settled { last_pid = put domain pid s.last_pid }

-- the part of `_record_win_meta` that pins the winner
unfoldable pub pin_winner : Settings → Peers → Text → Text → ℕ → DomainCache → DomainCache
unfolding adapt_ttl
pin_winner c p domain pid now s =
    let m : Meta = record {
      default_proxy = pid;
      updated_at = p.now_utc;
      updated_mono = some now;
      ref_ewma = p.ref_ewma_for domain pid;
    } in
    let s1 = record s { meta = put domain m s.meta } in
    let s2 = if c.adaptive_ttl_enabled then adapt_ttl c domain pid s1 else s1 in
    record s2 {
      marks = record s2.marks { degraded = set_discard pid s2.marks.degraded };
      meta_dirty = true;
    }

-- `_record_win_meta`
unfoldable pub record_win_meta : Settings → Peers → Text → Text → ℕ → DomainCache → DomainCache
unfolding damping_allows_switch worse_than_best pin_winner
record_win_meta c p domain pid now s =
    let s1 = record s { marks = record s.marks { until = remove (pid, domain) s.marks.until } } in
    let (allowed, s2) = damping_allows_switch c p domain pid s1 in
    if not allowed
    then s2
    else (let s3 = record s2 { targets = clear_dead_target domain s2.targets } in
        if worse_than_best c p domain pid then s3 else pin_winner c p domain pid now s3)

-- the test of the lifetime at the end of `_get_fresh_proxy`
unfoldable pub is_fresh : Peers → ℕ → ℕ → Meta → Bool
is_fresh p ttl now m = elim m.updated_mono [
  | some t ↦ ltb now (t + ttl)
  | none ↦ elim (p.age_of m.updated_at) [ none ↦ false | some age ↦ ltb age ttl ]
]

-- `_get_fresh_proxy`
unfoldable pub get_fresh_proxy :
    Settings → Peers → Text → ℕ → DomainCache → Option Text × DomainCache
unfolding domain_ttl is_fresh
get_fresh_proxy c p domain now s = elim (lookup domain s.meta) [
  | none ↦ (none, s)
  | some m ↦
      let pid = m.default_proxy in
      if p.has_policies && not (p.policy_allows_sticky domain pid)
      then (none, s)
      else if p.is_circuit_open pid
      then (none, s)
      else (let (marked, ms) = is_send_degraded pid domain now s.marks in
          let s1 = record s { marks = ms } in
          if marked
          then (none, s1)
          else if p.single_send_degraded domain pid m.ref_ewma
          then (
            none,
            record s1 {
              marks = record ms { degraded = set_add pid ms.degraded };
              domain_ttls =
                  if c.adaptive_ttl_enabled
                  then put domain c.ttl_min s1.domain_ttls
                  else s1.domain_ttls;
              ttl_resets = if c.adaptive_ttl_enabled then s1.ttl_resets + 1 else s1.ttl_resets;
            },
          )
          else if is_fresh p (domain_ttl c domain s1) now m
          then (some pid, s1)
          else (none, s1))
]
