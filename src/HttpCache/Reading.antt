-- ===== src/HttpCache/Reading.antt =====
-- What a lookup in the response cache finds after a store, after the lifetime and after an
-- invalidation.
use auto_squid.HttpCache.{
  Entry, HttpCache, Headers, domain_key_from_url, cache_key, is_private, refuses_storage, stored,
  store, evict_loop, http_cache_remove, http_cache_get, http_cache_set, over_limit, entry_bytes,
}
use auto_squid.HttpCache.Loop.{round, evict_step}
use auto_squid.HttpCache.Validity.{IsValid, store-Stored, Stored}
use auto_squid.HttpCache.Preservation.{domain_of_key-cache_key}
use auto_squid.Base.{
  ℕ, zero, suc, ◌+◌, ◌/◌, ◌≤◌, ◌<◌, ◌≡◌, refl, ◌∙◌, true, false, not, ◌||◌, Option, none, some,
  List, [], ◌∷◌, arith, ltb, ◌==◌, nat_eq, Text, text_eq, pair_eq, beq_refl, length, drop, text,
  inl, inr, Bool-cases, option_eq, ◌-◌, ◌⊎◌, ◌++◌,
}
use auto_squid.Dict.{size, lookup, remove, Dict, total}
use auto_squid.Dict.Laws.{lookup-drop, lookup-remove, lookup-append}

-- the entry that a request stores
abbrev pub response : ℕ → Text → Headers → List ℕ → ℕ → ℕ → Entry
response status reason hs content at used = record {
  status_code = status;
  reason_phrase = reason;
  headers = hs;
  content = content;
  cached_at = at;
  last_access = used;
}

last_needed :
    (Big : ℕ → Type 0) (gone : ℕ) → ((m : ℕ) → m < gone → Big m) → (gone ≡ 0) ⊎ Big (gone - 1)
last_needed Big zero big = inl refl
last_needed Big (suc n) big = inr (big (suc n - 1) (omega arith))

module _ (hostname : Text → Option Text) where
  remove_settings :
      (key : Text) (c : HttpCache)
      → ((http_cache_remove hostname key c).1.enabled ≡ c.enabled)
        × ((http_cache_remove hostname key c).1.ttl ≡ c.ttl)
  unfolding http_cache_remove
  remove_settings key c = ground arith

  evict_settings :
      (fuel : ℕ) (c : HttpCache)
      → ((evict_loop hostname fuel c).enabled ≡ c.enabled)
        × ((evict_loop hostname fuel c).ttl ≡ c.ttl)
  unfolding evict_loop
  evict_settings zero c = (refl, refl)
  evict_settings (suc fuel) c = elim (Bool-cases (over_limit c)) [
    | inr under ↦ rw (under, evict_loop) (refl, refl)
    | inl over ↦ go over c.cache refl (λ k. evict_settings fuel (round hostname k c))
  ]
    where
      go :
          over_limit c ≡ true
          → (l : Dict Text Entry) → c.cache ≡ l
          → ((k : Text)
              → ((evict_loop hostname fuel (round hostname k c)).enabled
                  ≡ (round hostname k c).enabled)
                × ((evict_loop hostname fuel (round hostname k c)).ttl ≡ (round hostname k c).ttl))
          → ((evict_loop hostname (suc fuel) c).enabled ≡ c.enabled)
            × ((evict_loop hostname (suc fuel) c).ttl ≡ c.ttl)
      go over [] e ih = ground (arith, over, e)
      go over ((k, v) ∷ l) e ih =
          let same = remove_settings k c in
          rw (evict_step hostname fuel k v c over e) ((ih k).0 ∙ same.0, (ih k).1 ∙ same.1)

  store_settings :
      (host key : Text) (e : Entry) (c : HttpCache)
      → ((store hostname host key e c).enabled ≡ c.enabled)
        × ((store hostname host key e c).ttl ≡ c.ttl)
  unfolding store stored
  store_settings host key e c = evict_settings (size (stored key e c).cache) (stored key e c)

  lookup-store :
      (key : Text) (e : Entry) (c : HttpCache) (v : IsValid hostname c) {r : HttpCache}
      → Stored hostname key e c v r
      → lookup key r.cache ≡ some e
  unfolding lookup
  lookup-store key e c v s = ground (
    arith,
    s.cache,
    lookup-append key (drop s.gone (remove key c.cache)) ((key, e) ∷ []),
    lookup-drop s.gone key (remove key c.cache),
    lookup-remove key key c.cache,
    beq_refl key,
  )

  refused :
      (request hs : Headers) (content : List ℕ) (c : HttpCache)
      → is_private request ≡ false
      → refuses_storage hs ≡ false
      → length content ≤ c.max_bytes / 2
      → (not (text "GET" == text "GET")
          || is_private request
          || refuses_storage hs
          || ltb (c.max_bytes / 2) (length content))
        ≡ false
  refused request hs content c p allowed fits = ground (arith, p, allowed, beq_refl (text "GET"))

  get_hit :
      (url : Text) (hs : Headers) (later : ℕ) (c : HttpCache) (e : Entry)
      → c.enabled ≡ true
      → is_private hs ≡ false
      → lookup (cache_key (text "GET") url) c.cache ≡ some e
      → later ≤ e.cached_at + c.ttl
      → (http_cache_get hostname (text "GET") url hs later c).0
        ≡ some (record e { last_access = later })
  unfolding http_cache_get
  get_hit url hs later c e on p found fresh =
      ground (arith, on, p, found, fresh, beq_refl (text "GET"))

  -- A response to a GET without private headers that the response headers let through and that is
  -- no larger than half the limit is found, whole, by a GET without private headers of the same URL
  -- that comes next within its lifetime, before anything else is stored or removed, whatever had to
  -- be evicted to make room for it. The cache must be valid and on.
  pub http_cache_get-http_cache_set :
      (url : Text) (status : ℕ) (reason : Text) (hs : Headers) (content : List ℕ)
      (request later_request : Headers) (now later : ℕ) (c : HttpCache)
      → IsValid hostname c
      → c.enabled ≡ true
      → is_private request ≡ false
      → is_private later_request ≡ false
      → refuses_storage hs ≡ false
      → length content ≤ c.max_bytes / 2
      → later ≤ now + c.ttl
      → (http_cache_get hostname
          (text "GET")
          url
          later_request
          later
          (http_cache_set hostname (text "GET") url status reason hs content request now c)).0
        ≡ some (response status reason hs content now later)
  unfolding http_cache_set
  http_cache_get-http_cache_set url status reason hs content rq rq' now later c v on p p' allowed
        fits fresh =
      let key = cache_key (text "GET") url in
      let e : Entry = response status reason hs content now now in
      let s : Stored hostname key e c v
          (store hostname (domain_key_from_url hostname url) key e c) =
        rw (← domain_of_key-cache_key hostname url)
          (store-Stored hostname key e c v (omega (arith, fits))) in
      let settings = store_settings (domain_key_from_url hostname url) key e c in
      rw (refused rq hs content c p allowed fits) (
        get_hit url rq' later _ e (settings.0 ∙ on) p' (lookup-store key e c v s)
          (rw settings.1 fresh))

  -- A GET without private headers, in an enabled cache, of an entry whose lifetime is over
  -- misses, and the entry is gone.
  pub http_cache_get_expired :
      (url : Text) (hs : Headers) (now : ℕ) (c : HttpCache) (e : Entry)
      → c.enabled ≡ true
      → is_private hs ≡ false
      → lookup (cache_key (text "GET") url) c.cache ≡ some e
      → e.cached_at + c.ttl < now
      → ((http_cache_get hostname (text "GET") url hs now c).0 ≡ none)
        × (lookup
              (cache_key (text "GET") url)
              (http_cache_get hostname (text "GET") url hs now c).1.cache
            ≡ none)
  unfolding http_cache_get http_cache_remove
  http_cache_get_expired url hs now c e on p found late =
      let key = cache_key (text "GET") url in
      ground (
        arith,
        on,
        p,
        found,
        late,
        lookup-remove key key c.cache,
        beq_refl key,
        beq_refl (text "GET"),
      )

  -- Storing a response that is let through, for a GET without private headers, puts it last and takes
  -- as many of the others as needed from the front, the least recently used first: none, or one fewer
  -- would have left the cache over a limit. The cache must be valid; the evictions are counted.
  pub http_cache_set-lru :
      (url : Text) (status : ℕ) (reason : Text) (hs : Headers) (content : List ℕ)
      (request : Headers) (now : ℕ) (c : HttpCache)
      → IsValid hostname c
      → is_private request ≡ false
      → refuses_storage hs ≡ false
      → length content ≤ c.max_bytes / 2
      → let key = cache_key (text "GET") url in
        let e = response status reason hs content now now in
        let r = http_cache_set hostname (text "GET") url status reason hs content request now c in
        let left = λ (n : ℕ). drop n (remove key c.cache) ++ (key, e) ∷ [] in
        (gone : ℕ) × (r.cache ≡ left gone)
        × (r.evictions ≡ c.evictions + gone)
        × ((gone ≡ 0)
            ⊎ (c.max_entries < size (left (gone - 1)))
            ⊎ (c.max_bytes < total entry_bytes (left (gone - 1))))
  unfolding http_cache_set
  http_cache_set-lru url status reason hs content rq now c v p allowed fits =
      let key = cache_key (text "GET") url in
      let e : Entry = response status reason hs content now now in
      let s : Stored hostname key e c v
          (store hostname (domain_key_from_url hostname url) key e c) =
        rw (← domain_of_key-cache_key hostname url)
          (store-Stored hostname key e c v (omega (arith, fits))) in
      rw (refused rq hs content c p allowed fits)
        (s.gone, s.cache, s.evictions, last_needed _ s.gone s.needed)
