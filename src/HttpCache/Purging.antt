-- ===== src/HttpCache/Purging.antt =====
-- The invalidation of a domain: what its loop keeps, and what it leaves.
use auto_squid.HttpCache.{HttpCache, or_nil, domain_of_key, http_cache_remove, remove_all}
use auto_squid.HttpCache.Evicting.{
  indexed, IsIndexed, IsCounted, http_cache_remove-IsIndexed, http_cache_remove-IsCounted,
  indexed-unindex,
}
use auto_squid.HttpCache.Validity.{IsValid, http_cache_remove_bounds}
use auto_squid.Base.{
  ◌≤◌, ◌≡◌, inl, inr, true, false, ◌&&◌, Option, List, [], ◌∷◌, arith, Bool-cases, ◌==◌, nat_eq,
  Text, text_eq, text_beq_iff, pair_eq, beq_refl, contains,
}
use auto_squid.Dict.{size, lookup, remove, has_key}
use auto_squid.Dict.Laws.{lookup-remove}

module _ (hostname : Text → Option Text) (domain : Text) where
  -- a cache in the middle of an invalidation, with the keys `ks` still to be removed
  pub record IsPurging (ks : List Text) (c : HttpCache) : Type 0 where
    pub counted : IsCounted c
    pub others : (d k : Text) → (d == domain) ≡ false → IsIndexed hostname d k c
    pub unlisted : (k : Text) → contains k (indexed domain c.domain_index) ≡ false
    pub left :
        (k : Text)
        → (has_key k c.cache && domain_of_key hostname k == domain) ≡ true
        → contains k ks ≡ true
    pub few : size c.cache ≤ c.max_entries
    pub small : c.bytes ≤ c.max_bytes
    pub room : 1 ≤ c.max_entries

  -- the state after `pop` of the domain's set
  abbrev pub popped : HttpCache → HttpCache
  popped c = record c { domain_index = remove domain c.domain_index }

  pub popped-IsPurging :
      (c : HttpCache)
      → IsValid hostname c
      → IsPurging (or_nil (lookup domain c.domain_index)) (popped c)
  unfolding contains
  popped-IsPurging c v = record {
    counted = record { distinct = v.counted.distinct; counted = v.counted.counted };
    others = λ d k ne. ground (
      arith,
      lookup-remove domain d c.domain_index,
      v.exact d k,
      ne,
      text_beq_iff domain d,
      text_beq_iff d domain,
    );
    unlisted = λ k. ground (arith, lookup-remove domain domain c.domain_index, beq_refl domain);
    left = λ k h. ground (arith, v.exact domain k, h);
    few = v.few;
    small = v.small;
    room = v.room;
  }

  step_unlisted :
      (k : Text) (ks : List Text) (c : HttpCache)
      → IsPurging (k ∷ ks) c
      → (j : Text)
      → contains j (indexed domain (http_cache_remove hostname k c).1.domain_index) ≡ false
  unfolding http_cache_remove
  step_unlisted k ks c p j =
      ground
        (arith, p.unlisted j, indexed-unindex (domain_of_key hostname k) k domain j c.domain_index)

  step_left :
      (k : Text) (ks : List Text) (c : HttpCache)
      → IsPurging (k ∷ ks) c
      → (j : Text)
      → (has_key j (http_cache_remove hostname k c).1.cache && domain_of_key hostname j == domain)
        ≡ true
      → contains j ks ≡ true
  unfolding http_cache_remove contains has_key
  step_left k ks c p j h = ground (arith, p.left j, lookup-remove k j c.cache, h, text_beq_iff k j)

  step_bounds :
      (k : Text) (ks : List Text) (c : HttpCache)
      → IsPurging (k ∷ ks) c
      → (size (http_cache_remove hostname k c).1.cache
          ≤ (http_cache_remove hostname k c).1.max_entries)
        × ((http_cache_remove hostname k c).1.bytes ≤ (http_cache_remove hostname k c).1.max_bytes)
        × (1 ≤ (http_cache_remove hostname k c).1.max_entries)
  step_bounds k ks c p = http_cache_remove_bounds hostname k c p.counted p.few p.small p.room

  step-IsPurging :
      (k : Text) (ks : List Text) (c : HttpCache)
      → IsPurging (k ∷ ks) c
      → IsPurging ks (http_cache_remove hostname k c).1
  step-IsPurging k ks c p = record {
    counted = http_cache_remove-IsCounted hostname k c p.counted;
    others = λ d j ne. http_cache_remove-IsIndexed hostname k d j c (p.others d j ne);
    unlisted = step_unlisted k ks c p;
    left = step_left k ks c p;
    few = (step_bounds k ks c p).0;
    small = (step_bounds k ks c p).1;
    room = (step_bounds k ks c p).2;
  }

  -- Once every listed key is removed the cache is valid, and no key of the domain is left.
  pub remove_all-IsPurging :
      (ks : List Text) (c : HttpCache) → IsPurging ks c → IsPurging [] (remove_all hostname ks c)
  unfolding remove_all
  remove_all-IsPurging [] c p = p
  remove_all-IsPurging (k ∷ ks) c p =
      remove_all-IsPurging ks (http_cache_remove hostname k c).1 (step-IsPurging k ks c p)

  pub purged :
      (c : HttpCache)
      → IsPurging [] c
      → (k : Text) → (has_key k c.cache && domain_of_key hostname k == domain) ≡ false
  unfolding contains
  purged c p k = ground (arith, p.left k)

  pub purged-IsValid : (c : HttpCache) → IsPurging [] c → IsValid hostname c
  purged-IsValid c p = record {
    counted = p.counted;
    exact = λ d k. elim (Bool-cases (d == domain)) [
      | inl same ↦ ground (arith, p.unlisted k, purged c p k, text_beq_iff d domain, same)
      | inr other ↦ p.others d k other
    ];
    few = p.few;
    small = p.small;
    room = p.room;
  }
