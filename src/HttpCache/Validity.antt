-- ===== src/HttpCache/Validity.antt =====
-- The invariant of the cache: the byte count is the sum of the contents, the limits hold, and the
-- domain index lists exactly the cached keys under their domains. Every operation keeps it.
use auto_squid.HttpCache.{
  Entry, HttpCache, entry_bytes, domain_of_key, http_cache_remove, over_limit, evict_loop, store,
  index_key, stored,
}
use auto_squid.HttpCache.Evicting.{IsIndexed, IsCounted, indexed-index_key}
use auto_squid.HttpCache.Loop.{IsStoring, Evicted, evict_loop-Evicted}
use auto_squid.Base.{
  ◌+◌, ◌≤◌, ◌≡◌, Option, some, [], ◌∷◌, ◌++◌, nat_eq, Text, text_eq, ℕ, ◌<◌, ◌⊎◌, arith, drop,
  length-append, false, text_beq_iff, beq_refl,
}
use auto_squid.Dict.{size, lookup, put, remove, Dict, total, has_key}
use auto_squid.Dict.Laws.{
  move_to_end-put, Distinct-put, Distinct-move_to_end, has_key-put, has_key-move_to_end,
  lookup-append,
}
use auto_squid.Dict.Measure.{total-append, size-eq-total, total-remove}

pub finished_bounds :
    (r : HttpCache)
    → over_limit r ≡ false
    → (size r.cache ≤ r.max_entries) × (r.bytes ≤ r.max_bytes)
unfolding over_limit
finished_bounds r h = ground (arith, h)

needed_at :
    {n a b a' b' : ℕ} {f g : ℕ → ℕ}
    → a ≡ a'
    → b ≡ b'
    → ((m : ℕ) → m < n → (a < f m) ⊎ (b < g m))
    → (m : ℕ) → m < n
    → (a' < f m) ⊎ (b' < g m)
needed_at p q h m l = ground (arith, h m l, p, q)

lookup-last : (key : Text) (e : Entry) → lookup key ((key, e) ∷ []) ≡ some e
unfolding lookup
lookup-last key e = ground (arith, beq_refl key)

module _ (hostname : Text → Option Text) where
  finished-IsIndexed :
      (key : Text) (e : Entry) {pre : Dict Text Entry} {r : HttpCache}
      → IsStoring hostname key e pre r
      → (d k : Text)
      → IsIndexed hostname d k
          (record r { domain_index = index_key (domain_of_key hostname key) key r.domain_index })
  unfolding has_key
  finished-IsIndexed key e {pre} {r} s d k = ground (
    arith,
    indexed-index_key (domain_of_key hostname key) key d k r.domain_index,
    s.last,
    lookup-append key pre ((key, e) ∷ []),
    text_beq_iff key k,
    s.others d k,
    s.own d,
    text_beq_iff (domain_of_key hostname key) d,
    lookup-last key e,
  )

  pub record IsValid (c : HttpCache) : Type 0 where
    pub counted : IsCounted c
    pub exact : (d k : Text) → IsIndexed hostname d k c
    pub few : size c.cache ≤ c.max_entries
    pub small : c.bytes ≤ c.max_bytes
    pub room : 1 ≤ c.max_entries

  module _ (key : Text) (e : Entry) (c : HttpCache) (v : IsValid c) where
    stored-last : (stored key e c).cache ≡ remove key c.cache ++ (key, e) ∷ []
    unfolding stored
    stored-last = move_to_end-put key e c.cache v.counted.distinct

    stored-IsCounted : IsCounted (stored key e c)
    unfolding stored total
    stored-IsCounted = record {
      distinct =
          Distinct-move_to_end key (put key e c.cache)
            (Distinct-put key e c.cache v.counted.distinct);
      counted = ground (
        arith,
        stored-last,
        total-append entry_bytes (remove key c.cache) ((key, e) ∷ []),
        total-remove entry_bytes key c.cache v.counted.distinct,
        v.counted.counted,
      );
    }

    pub stored-IsStoring :
        entry_bytes e ≤ c.max_bytes → IsStoring hostname key e (remove key c.cache) (stored key e c)
    unfolding stored
    stored-IsStoring fits = record {
      counted = stored-IsCounted;
      last = stored-last;
      others = λ d k ne. ground (
        arith,
        v.exact d k,
        has_key-move_to_end key k (put key e c.cache),
        has_key-put key k e c.cache,
        ne,
      );
      own = λ d m. ground (arith, v.exact d key, m);
      room = v.room;
      fits = fits;
    }

    pub stored-Evicted :
        entry_bytes e ≤ c.max_bytes
        → Evicted hostname key e
            (remove key c.cache)
            (stored key e c)
            (evict_loop hostname (size (stored key e c).cache) (stored key e c))
    stored-Evicted fits =
        evict_loop-Evicted hostname key e (size (stored key e c).cache) (remove key c.cache)
          (stored key e c)
          (rw stored-last (omega (arith, length-append {0} (remove key c.cache) ((key, e) ∷ []))))
          (stored-IsStoring fits)

    -- the effect of a store
    pub record Stored (r : HttpCache) : Type 0 where
      pub gone : ℕ
      pub cache : r.cache ≡ drop gone (remove key c.cache) ++ (key, e) ∷ []
      pub evictions : r.evictions ≡ c.evictions + gone
      pub needed :
          (m : ℕ)
          → m < gone
          → (c.max_entries < size (drop m (remove key c.cache) ++ (key, e) ∷ []))
            ⊎ (c.max_bytes < total entry_bytes (drop m (remove key c.cache) ++ (key, e) ∷ []))
      pub valid : IsValid r

    -- Storing an entry that fits, in a valid cache, leaves the new entry last, before it all but the
    -- `gone` least recently used of the others, which are exactly as many as the limits demand, and a
    -- valid cache; the evictions are counted.
    pub store-Stored :
        entry_bytes e ≤ c.max_bytes → Stored (store hostname (domain_of_key hostname key) key e c)
    unfolding store
    store-Stored fits =
        let ev = stored-Evicted fits in
        record {
          gone = ev.gone;
          cache = ev.storing.last;
          evictions = ev.count;
          needed = needed_at ev.same.0 ev.same.1 ev.needed;
          valid = record {
            counted = record {
              distinct = ev.storing.counted.distinct;
              counted = ev.storing.counted.counted;
            };
            exact = finished-IsIndexed key e ev.storing;
            few = (finished_bounds _ ev.within).0;
            small = (finished_bounds _ ev.within).1;
            room = ev.storing.room;
          };
        }

  pub http_cache_remove_bounds :
      (key : Text) (c : HttpCache)
      → IsCounted c
      → size c.cache ≤ c.max_entries
      → c.bytes ≤ c.max_bytes
      → 1 ≤ c.max_entries
      → (size (http_cache_remove hostname key c).1.cache
          ≤ (http_cache_remove hostname key c).1.max_entries)
        × ((http_cache_remove hostname key c).1.bytes
            ≤ (http_cache_remove hostname key c).1.max_bytes)
        × (1 ≤ (http_cache_remove hostname key c).1.max_entries)
  unfolding http_cache_remove
  http_cache_remove_bounds key c n few small room = ground (
    arith,
    few,
    small,
    room,
    size-eq-total (remove key c.cache),
    size-eq-total c.cache,
    total-remove (λ _. 1) key c.cache n.distinct,
  )
