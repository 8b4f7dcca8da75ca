-- ===== src/Sticky/Reads.antt =====
-- What a lookup in the stickiness table returns, and which session a full table gives up.
use auto_squid.Sticky.{
  evict_each, prune_sticky, prune_sticky_throttled, sweep_probes, is_stale, Entry, Sticky, Router,
  local_id, sticky_key, is_unfit, expired, sticky_recheck_due, sticky_slow_probe_due,
  sticky_degrade_due, judge_quality, get_sticky_proxy, record_sticky, make_room,
  evict_oldest_sticky, evict_sticky_key,
}
use auto_squid.Sticky.Order.{After-lookup, Ordered}
use auto_squid.Sticky.Validity.{IsValid}
use auto_squid.Base.{
  ℕ, ◌+◌, ◌≡◌, true, not, ◌||◌, some, ltb, if◌then◌else◌, ◌==◌, nat_eq, Text, text_eq, pair_eq,
  option_eq, ◌≤◌, refl, ◌∙◌, Bool, false, ◌&&◌, none, [], ◌∷◌, arith, text_beq_iff, beq_refl, ap,
  List, leb, if_elim, ◌*◌, Option,
}
use auto_squid.Dict.{lookup, Dict, put, size, keys, keep, has_key}
use auto_squid.Dict.Laws.{lookup-put, lookup-remove, lookup-move_to_end}

-- slower than the best by the factor and the slack, where both were seen and the factor is set
abbrev pub is_behind : Router → Option (Text × ℕ) → Option ℕ → Bool
is_behind r none cur = false
is_behind r (some best) none = false
is_behind r (some best) (some cur) =
    ltb (best.1 * r.ratio_num) (cur * r.ratio_den) && ltb (best.1 + r.slack) cur

-- when the pinned proxy of a session may serve the next request alone: the session is fresh, the
-- policies allow the proxy and no new race is due; for this host, racing from it is allowed, and for
-- any other proxy, it is usable, its circuit closed, and it is neither slower than the best nor
-- degraded
abbrev pub may_serve : Router → Text → ℕ → Sticky → Entry → Bool
may_serve r domain now s e =
    ltb now (e.updated_mono + s.ttl)
    && (not r.has_policies || r.policy_allows_sticky domain e.proxy_id)
    && (s.recheck_hits == 0 || ltb e.hits s.recheck_hits)
    && (if e.proxy_id == local_id
        then s.enable_local_racing
        else r.usable e.proxy_id
          && not (r.is_circuit_open e.proxy_id)
          && not (
              not (r.ratio_num == 0)
              && is_behind r (r.best_domain_ewma domain e.proxy_id)
                  (r.domain_ewma domain e.proxy_id))
          && not (r.single_send_degraded domain e.proxy_id e.ref_ewma))

-- In an enabled table a lookup of a pinned session returns its proxy exactly if that proxy may serve,
-- and nothing otherwise. The session must be fresh, the proxy allowed by the policies and no new race
-- due. A session pinned to this host then needs only that racing from it is allowed; any other proxy
-- must be usable with its circuit closed, not slower than the best by the set factor and slack, and
-- not degraded.
pub get_sticky_proxy_lem :
    (r : Router) (ip domain : Text) (now : ℕ) (s : Sticky) (e : Entry)
    → s.enabled ≡ true
    → lookup (sticky_key ip domain) s.cache ≡ some e
    → (get_sticky_proxy r ip domain now s).0
      ≡ (if may_serve r domain now s e then some e.proxy_id else none)
unfolding get_sticky_proxy is_unfit judge_quality expired sticky_recheck_due sticky_degrade_due
    sticky_slow_probe_due
get_sticky_proxy_lem r ip domain now s e on hit = ground (arith, on, hit)

-- the entry of a new winner
abbrev pub pinned : Router → Text → Text → ℕ → Entry
pinned r domain pid now = record {
  proxy_id = pid;
  updated_at = r.now_utc;
  updated_mono = now;
  hits = 0;
  ref_ewma = r.ref_ewma_for domain pid;
}

record_sticky-lookup :
    (r : Router) (ip domain pid : Text) (now : ℕ) (s : Sticky)
    → s.enabled ≡ true
    → r.worse_than_best domain pid ≡ false
    → lookup (sticky_key ip domain) (record_sticky r ip domain pid now s).cache
      ≡ some (pinned r domain pid now)
unfolding record_sticky
record_sticky-lookup r ip domain pid now s on good =
    let key = sticky_key ip domain in
    let s' = make_room r key now s in
    ground (
      arith,
      on,
      good,
      lookup-move_to_end key key (put key (pinned r domain pid now) s'.cache),
      lookup-put key key (pinned r domain pid now) s'.cache,
      beq_refl key,
    )

-- the oldest session goes when a full table must give one up
evict_head-oldest :
    (j k : Text) (e f : Entry) (d : Dict Text Entry) (s : Sticky)
    → s.cache ≡ d
    → Ordered d
    → lookup j s.cache ≡ some e
    → lookup j (evict_oldest_sticky s).cache ≡ none
    → lookup k (evict_oldest_sticky s).cache ≡ some f
    → e.updated_mono ≤ f.updated_mono
unfolding evict_oldest_sticky evict_sticky_key lookup
evict_head-oldest j k e f [] s h o hit gone stays = ground (arith, h, hit)
evict_head-oldest j k e f ((i, g) ∷ d) s h o hit gone stays = ground (
  arith,
  h,
  hit,
  gone,
  stays,
  beq_refl i,
  lookup-remove i j s.cache,
  lookup-remove i k s.cache,
  After-lookup g.updated_mono k f d o.0,
  text_beq_iff i j,
  text_beq_iff i k,
)

-- A full table gives up a session that is unused for the longest time: the session that an eviction
-- takes from a valid table was refreshed no later than any session that stays.
pub evict_oldest_sticky-oldest :
    (now : ℕ) (s : Sticky) (j k : Text) (e f : Entry)
    → IsValid now s
    → lookup j s.cache ≡ some e
    → lookup j (evict_oldest_sticky s).cache ≡ none
    → lookup k (evict_oldest_sticky s).cache ≡ some f
    → e.updated_mono ≤ f.updated_mono
evict_oldest_sticky-oldest now s j k e f v hit gone stays =
    evict_head-oldest j k e f s.cache s refl v.ordered hit gone stays

-- the settings, which no operation changes
record Same (s t : Sticky) : Type 0 where
  enabled : t.enabled ≡ s.enabled
  ttl : t.ttl ≡ s.ttl
  recheck : t.recheck_hits ≡ s.recheck_hits
  racing : t.enable_local_racing ≡ s.enable_local_racing

evict_sticky_key-Same : (k : Text) (s : Sticky) → Same s (evict_sticky_key k s)
unfolding evict_sticky_key
evict_sticky_key-Same k s = record {
  enabled = ground arith;
  ttl = ground arith;
  recheck = ground arith;
  racing = ground arith;
}

Same-trans : (s t u : Sticky) → Same s t → Same t u → Same s u
Same-trans s t u a b = record {
  enabled = b.enabled ∙ a.enabled;
  ttl = b.ttl ∙ a.ttl;
  recheck = b.recheck ∙ a.recheck;
  racing = b.racing ∙ a.racing;
}

Same-refl : (s : Sticky) → Same s s
Same-refl s = record { enabled = refl; ttl = refl; recheck = refl; racing = refl }

evict_each-Same : (ks : List Text) (s : Sticky) → Same s (evict_each ks s)
unfolding evict_each
evict_each-Same [] s = Same-refl s
evict_each-Same (k ∷ ks) s =
    Same-trans s (evict_sticky_key k s) (evict_each ks (evict_sticky_key k s))
      (evict_sticky_key-Same k s) (evict_each-Same ks (evict_sticky_key k s))

prune_sticky_throttled-Same :
    (r : Router) (now : ℕ) (s : Sticky) → Same s (prune_sticky_throttled r now s)
unfolding prune_sticky_throttled prune_sticky
prune_sticky_throttled-Same r now s =
    if_elim (Same s) (ltb now (s.last_prune + 1_000_000)) (λ _. Same-refl s)
      (λ _.
        let swept = record s { last_prune = now; probe_last = sweep_probes now s } in
        let all = evict_each-Same (keys (keep (λ _ e. is_stale r now s e) s.cache)) swept in
        record { enabled = all.enabled; ttl = all.ttl; recheck = all.recheck; racing = all.racing })

evict_oldest_sticky-Same : (s : Sticky) → Same s (evict_oldest_sticky s)
unfolding evict_oldest_sticky evict_sticky_key
evict_oldest_sticky-Same s = record {
  enabled = ground arith;
  ttl = ground arith;
  recheck = ground arith;
  racing = ground arith;
}

make_room-Same : (r : Router) (key : Text) (now : ℕ) (s : Sticky) → Same s (make_room r key now s)
unfolding make_room
make_room-Same r key now s =
    let swept = prune_sticky_throttled r now s in
    let kept = prune_sticky_throttled-Same r now s in
    if_elim (Same s) (not (has_key key s.cache) && leb s.max_entries (size s.cache))
      (λ _.
        if_elim (Same s) (leb swept.max_entries (size swept.cache))
          (λ _.
            Same-trans s swept (evict_oldest_sticky swept) kept (evict_oldest_sticky-Same swept))
          (λ _. kept))
      (λ _. Same-refl s)

record_sticky-Same :
    (r : Router) (ip domain pid : Text) (now : ℕ) (s : Sticky)
    → Same s (record_sticky r ip domain pid now s)
unfolding record_sticky
record_sticky-Same r ip domain pid now s =
    let m = make_room-Same r (sticky_key ip domain) now s in
    if_elim (Same s) (not s.enabled) (λ _. Same-refl s)
      (λ _.
        if_elim (Same s) (r.worse_than_best domain pid) (λ _. Same-refl s)
          (λ _. record {
            enabled = m.enabled;
            ttl = m.ttl;
            recheck = m.recheck;
            racing = m.racing;
          }))

may_serve-Same :
    (q : Router) (domain : Text) (now : ℕ) (s t : Sticky) (e : Entry)
    → Same s t
    → may_serve q domain now t e ≡ may_serve q domain now s e
may_serve-Same q domain now s t e same = rw (same.ttl, same.recheck, same.racing) refl

-- A lookup after a new winner was recorded in an enabled table, by a winner that is not worse than
-- the best, returns that winner exactly if it may serve at that time.
pub get_sticky_proxy-record_sticky :
    (r q : Router) (ip domain pid : Text) (now later : ℕ) (s : Sticky)
    → s.enabled ≡ true
    → r.worse_than_best domain pid ≡ false
    → (get_sticky_proxy q ip domain later (record_sticky r ip domain pid now s)).0
      ≡ (if may_serve q domain later s (pinned r domain pid now) then some pid else none)
get_sticky_proxy-record_sticky r q ip domain pid now later s on good =
    let t = record_sticky r ip domain pid now s in
    let same = record_sticky-Same r ip domain pid now s in
    get_sticky_proxy_lem q ip domain later t (pinned r domain pid now) (same.enabled ∙ on)
      (record_sticky-lookup r ip domain pid now s on good)
    ∙ ap (λ (b : Bool). if b then some pid else none)
        (may_serve-Same q domain later s t (pinned r domain pid now) same)
