-- ===== src/HttpCache/Invalidating.antt =====
-- What an invalidation takes away from the cache and what it leaves.
use auto_squid.HttpCache.{
  HttpCache, Headers, or_nil, domain_of_key, domain_key_from_url, cache_key, http_cache_remove,
  http_cache_get, http_cache_invalidate, remove_all,
}
use auto_squid.HttpCache.Validity.{IsValid}
use auto_squid.HttpCache.Purging.{purged, popped, popped-IsPurging, remove_all-IsPurging}
use auto_squid.HttpCache.Preservation.{domain_of_key-cache_key}
use auto_squid.Base.{
  ℕ, ◌≡◌, refl, ◌≢◌, Bool, false, ◌&&◌, Option, none, List, [], ◌∷◌, arith, ◌==◌, nat_eq, Text,
  text_eq, text_beq_iff, pair_eq, contains, text, option_eq,
}
use auto_squid.Dict.{lookup, has_key}
use auto_squid.Dict.Laws.{lookup-remove}

module _ (hostname : Text → Option Text) where
  remove_other :
      (j k : Text) (c : HttpCache)
      → (j == k) ≡ false
      → lookup k (http_cache_remove hostname j c).1.cache ≡ lookup k c.cache
  unfolding http_cache_remove
  remove_other j k c h = ground (arith, h, lookup-remove j k c.cache)

  lookup-remove_all :
      (ks : List Text) (k : Text) (c : HttpCache)
      → contains k ks ≡ false
      → lookup k (remove_all hostname ks c).cache ≡ lookup k c.cache
  unfolding remove_all contains
  lookup-remove_all [] k c h = refl
  lookup-remove_all (j ∷ ks) k c h = ground (
    arith,
    lookup-remove_all ks k (http_cache_remove hostname j c).1,
    remove_other j k c,
    h,
    text_beq_iff j k,
  )

  get_miss :
      (url : Text) (hs : Headers) (now : ℕ) (c : HttpCache)
      → has_key (cache_key (text "GET") url) c.cache ≡ false
      → (http_cache_get hostname (text "GET") url hs now c).0 ≡ none
  unfolding http_cache_get has_key
  get_miss url hs now c h = ground (arith, h)

  unlisted :
      (url : Text) {domain : Text} {b : Bool}
      → domain_key_from_url hostname url ≡ domain
      → (b && domain_of_key hostname (cache_key (text "GET") url) == domain) ≡ false
      → b ≡ false
  unlisted url {domain} same h = ground (
    arith,
    h,
    same,
    domain_of_key-cache_key hostname url,
    text_beq_iff (domain_of_key hostname (cache_key (text "GET") url)) domain,
  )

  foreign :
      (domain url : Text) (c : HttpCache)
      → IsValid hostname c
      → domain_key_from_url hostname url ≢ domain
      → contains (cache_key (text "GET") url) (or_nil (lookup domain c.domain_index)) ≡ false
  foreign domain url c v other =
      let key = cache_key (text "GET") url in
      ground (
        arith,
        v.exact domain key,
        other,
        domain_of_key-cache_key hostname url,
        text_beq_iff (domain_of_key hostname key) domain,
      )

  -- After an invalidation of a valid cache no GET of a URL of the domain finds anything.
  pub http_cache_invalidate_domain :
      (domain url : Text) (hs : Headers) (now : ℕ) (c : HttpCache)
      → IsValid hostname c
      → domain_key_from_url hostname url ≡ domain
      → (http_cache_get hostname
          (text "GET")
          url
          hs
          now
          (http_cache_invalidate hostname domain c)).0
        ≡ none
  unfolding http_cache_invalidate
  http_cache_invalidate_domain domain url hs now c v same =
      let key = cache_key (text "GET") url in
      let ks = or_nil (lookup domain c.domain_index) in
      let done =
        remove_all-IsPurging hostname domain ks (popped hostname domain c)
          (popped-IsPurging hostname domain c v) in
      get_miss url hs now (http_cache_invalidate hostname domain c)
        (unlisted url same (purged hostname domain _ done key))

  -- An invalidation of a valid cache leaves every cached entry of another domain as it is.
  pub http_cache_invalidate_others :
      (domain url : Text) (c : HttpCache)
      → IsValid hostname c
      → domain_key_from_url hostname url ≢ domain
      → lookup (cache_key (text "GET") url) (http_cache_invalidate hostname domain c).cache
        ≡ lookup (cache_key (text "GET") url) c.cache
  unfolding http_cache_invalidate
  http_cache_invalidate_others domain url c v other =
      let key = cache_key (text "GET") url in
      let ks = or_nil (lookup domain c.domain_index) in
      lookup-remove_all ks key (popped hostname domain c) (foreign domain url c v other)
