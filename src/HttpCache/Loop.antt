-- ===== src/HttpCache/Loop.antt =====
-- The eviction loop of a store: it removes the least recently used entries, no more than the limits
-- demand, and never the entry that is being stored.
use auto_squid.HttpCache.{
  Entry, HttpCache, entry_bytes, domain_of_key, http_cache_remove, over_limit, evict_loop,
}
use auto_squid.HttpCache.Evicting.{
  indexed, IsIndexed, IsCounted, http_cache_remove-IsIndexed, http_cache_remove-IsCounted,
  indexed-unindex,
}
use auto_squid.Base.{
  ℕ, zero, suc, ◌+◌, ◌≤◌, ◌<◌, ◌≡◌, ◌⊎◌, true, false, Option, [], ◌∷◌, ◌++◌, arith, ◌==◌, nat_eq,
  Text, text_eq, pair_eq, length, drop, contains, refl, ◌∙◌, inl, inr, Bool-cases, text_beq_iff,
  beq_refl, subst, sym, option_eq,
}
use auto_squid.Dict.{Dict, size, total, lookup, Distinct}
use auto_squid.Dict.Laws.{lookup-append, remove-head}

module _ (hostname : Text → Option Text) where
  -- one round of the loop
  abbrev pub round : Text → HttpCache → HttpCache
  round oldest c =
      let c' = (http_cache_remove hostname oldest c).1 in record c' { evictions = c'.evictions + 1 }

  pub evict_step :
      (fuel : ℕ) (k : Text) (v : Entry) (c : HttpCache) {rest : Dict Text Entry}
      → over_limit c ≡ true
      → c.cache ≡ (k, v) ∷ rest
      → evict_loop hostname (suc fuel) c ≡ evict_loop hostname fuel (round k c)
  unfolding evict_loop
  evict_step fuel k v c over h = ground (arith, over, h)

module _ (hostname : Text → Option Text) (key : Text) (e : Entry) where
  -- a cache in the middle of a store: the new entry stands last, and only its own index entry may
  -- be missing
  pub record IsStoring (pre : Dict Text Entry) (c : HttpCache) : Type 0 where
    pub counted : IsCounted c
    pub last : c.cache ≡ pre ++ (key, e) ∷ []
    pub others : (d k : Text) → (key == k) ≡ false → IsIndexed hostname d k c
    pub own :
        (d : Text)
        → contains key (indexed d c.domain_index) ≡ true
        → (domain_of_key hostname key == d) ≡ true
    pub room : 1 ≤ c.max_entries
    pub fits : entry_bytes e ≤ c.max_bytes

  oldest_goes :
      (k : Text) (v : Entry) (pre : Dict Text Entry) (c : HttpCache)
      → IsStoring ((k, v) ∷ pre) c
      → ((http_cache_remove hostname k c).1.cache ≡ pre ++ (key, e) ∷ [])
        × ((key == k) ≡ false)
        × ((http_cache_remove hostname k c).1.evictions ≡ c.evictions)
        × ((http_cache_remove hostname k c).1.max_entries ≡ c.max_entries)
        × ((http_cache_remove hostname k c).1.max_bytes ≡ c.max_bytes)
  unfolding http_cache_remove lookup
  oldest_goes k v pre c h =
      let d : Distinct ((k, v) ∷ (pre ++ (key, e) ∷ [])) =
        subst Distinct h.last h.counted.distinct in
      ground (
        arith,
        h.last,
        remove-head k v (pre ++ (key, e) ∷ []) d,
        d.0,
        lookup-append key pre ((key, e) ∷ []),
        text_beq_iff key k,
        beq_refl k,
        beq_refl key,
      )

  stays_out :
      (d k : Text) (c : HttpCache)
      → (key == k) ≡ false
      → contains key (indexed d (http_cache_remove hostname k c).1.domain_index) ≡ true
      → contains key (indexed d c.domain_index) ≡ true
  unfolding http_cache_remove
  stays_out d k c ne m =
      ground (arith, indexed-unindex (domain_of_key hostname k) k d key c.domain_index)

  round-IsStoring :
      (k : Text) (v : Entry) (pre : Dict Text Entry) (c : HttpCache)
      → IsStoring ((k, v) ∷ pre) c
      → IsStoring pre (round hostname k c)
  round-IsStoring k v pre c h =
      let (left, other, _, entries, bytes) = oldest_goes k v pre c h in
      let sound = http_cache_remove-IsCounted hostname k c h.counted in
      record {
        counted = record { distinct = sound.distinct; counted = sound.counted };
        last = left;
        others = λ d j ne. http_cache_remove-IsIndexed hostname k d j c (h.others d j ne);
        own = λ d m. h.own d (stays_out d k c other m);
        room = rw entries h.room;
        fits = rw bytes h.fits;
      }

  -- what the loop leaves of the entries that stood before the new one
  pub record Evicted (pre : Dict Text Entry) (c r : HttpCache) : Type 0 where
    pub gone : ℕ
    pub storing : IsStoring (drop gone pre) r
    pub within : over_limit r ≡ false
    pub count : r.evictions ≡ c.evictions + gone
    pub needed :
        (m : ℕ)
        → m < gone
        → (r.max_entries < size (drop m pre ++ (key, e) ∷ []))
          ⊎ (r.max_bytes < total entry_bytes (drop m pre ++ (key, e) ∷ []))
    pub same : (r.max_entries ≡ c.max_entries) × (r.max_bytes ≡ c.max_bytes)

  last_within : (c : HttpCache) → IsStoring [] c → over_limit c ≡ false
  unfolding over_limit total
  last_within c h = ground (arith, h.last, h.counted.counted, h.room, h.fits)

  over_first :
      (k : Text) (v : Entry) (pre : Dict Text Entry) (c : HttpCache)
      → over_limit c ≡ true
      → IsStoring ((k, v) ∷ pre) c
      → (c.max_entries < size ((k, v) ∷ pre ++ (key, e) ∷ []))
        ⊎ (c.max_bytes < total entry_bytes ((k, v) ∷ pre ++ (key, e) ∷ []))
  unfolding over_limit
  over_first k v pre c over h = ground (arith, h.last, h.counted.counted)

  needed_more :
      (k : Text) (v : Entry) (pre : Dict Text Entry) (c r : HttpCache)
      → over_limit c ≡ true
      → IsStoring ((k, v) ∷ pre) c
      → (ev : Evicted pre (round hostname k c) r) → (m : ℕ) → m < suc ev.gone
      → (r.max_entries < size (drop m ((k, v) ∷ pre) ++ (key, e) ∷ []))
        ⊎ (r.max_bytes < total entry_bytes (drop m ((k, v) ∷ pre) ++ (key, e) ∷ []))
  needed_more k v pre c r over h ev zero l =
      let (_, _, _, entries, bytes) = oldest_goes k v pre c h in
      rw (ev.same.0 ∙ entries, ev.same.1 ∙ bytes) (over_first k v pre c over h)
  needed_more k v pre c r over h ev (suc m) l = ev.needed m (omega arith)

  Evicted-more :
      (k : Text) (v : Entry) (pre : Dict Text Entry) (c r : HttpCache)
      → over_limit c ≡ true
      → IsStoring ((k, v) ∷ pre) c
      → Evicted pre (round hostname k c) r
      → Evicted ((k, v) ∷ pre) c r
  Evicted-more k v pre c r over h ev =
      let (_, _, count, entries, bytes) = oldest_goes k v pre c h in
      record {
        gone = suc ev.gone;
        storing = ev.storing;
        within = ev.within;
        count = omega (arith, ev.count, count);
        needed = needed_more k v pre c r over h ev;
        same = (ev.same.0 ∙ entries, ev.same.1 ∙ bytes);
      }

  -- with more fuel than entries before the new one the loop ends below its limits
  pub evict_loop-Evicted :
      (fuel : ℕ) (pre : Dict Text Entry) (c : HttpCache)
      → length pre < fuel
      → IsStoring pre c
      → Evicted pre c (evict_loop hostname fuel c)
  unfolding evict_loop
  evict_loop-Evicted zero pre c f h = absurd (omega arith)
  evict_loop-Evicted (suc fuel) [] c f h =
      rw (last_within c h, evict_loop)
        (record {
          gone = 0;
          storing = h;
          within = last_within c h;
          count = omega arith;
          needed = λ m l. elim l [ ];
          same = (refl, refl);
        })
  evict_loop-Evicted (suc fuel) ((k, v) ∷ pre) c f h = elim (Bool-cases (over_limit c)) [
    | inl over ↦
        subst (Evicted ((k, v) ∷ pre) c) (sym (evict_step hostname fuel k v c over h.last)) (
          Evicted-more k v pre c (evict_loop hostname fuel (round hostname k c)) over h (
            evict_loop-Evicted fuel pre (round hostname k c) (omega arith)
              (round-IsStoring k v pre c h)))
    | inr under ↦
        rw (under, evict_loop)
          (record {
            gone = 0;
            storing = h;
            within = under;
            count = omega arith;
            needed = λ m l. elim l [ ];
            same = (refl, refl);
          })
  ]
