-- ===== src/HttpCache/Preservation.antt =====
-- Every operation of the response cache keeps its invariant.
use auto_squid.HttpCache.{
  Entry, HttpCache, Headers, entry_bytes, or_nil, domain_of_key, domain_key_from_url, cache_key,
  http_cache_remove, http_cache_get, http_cache_set, http_cache_invalidate, is_private,
  refuses_storage,
}
use auto_squid.HttpCache.Evicting.{http_cache_remove-IsIndexed, http_cache_remove-IsCounted}
use auto_squid.HttpCache.Purging.{purged-IsValid, remove_all-IsPurging, popped, popped-IsPurging}
use auto_squid.HttpCache.Validity.{http_cache_remove_bounds, IsValid, store-Stored}
use auto_squid.Base.{
  ℕ, ◌+◌, ◌/◌, ◌≡◌, refl, inl, inr, not, ◌||◌, Option, some, List, [], ◌∷◌, arith, ltb,
  Option-cases, if_elim, ◌==◌, nat_eq, Text, text_eq, text_beq_iff, pair_eq, length, text,
  starts_with,
}
use auto_squid.Dict.{lookup, put, move_to_end}
use auto_squid.Dict.Laws.{
  Distinct-put, Distinct-move_to_end, has_key-put, has_key-move_to_end, has_key-some,
}
use auto_squid.Dict.Measure.{size-eq-total, total-put, total-move_to_end, size-move_to_end}

-- the calls of the router
pub data Call : Type 0 where
  get : Text → Text → Headers → ℕ → Call
  set : Text → Text → ℕ → Text → Headers → List ℕ → Headers → ℕ → Call
  invalidate : Text → Call

pub domain_of_key-cache_key :
    (hostname : Text → Option Text) (url : Text)
    → domain_of_key hostname (cache_key (text "GET") url) ≡ domain_key_from_url hostname url
unfolding domain_of_key starts_with
domain_of_key-cache_key hostname url = refl

module _ (hostname : Text → Option Text) where
  touched-IsValid :
      (key : Text) (old new : Entry) (c : HttpCache)
      → lookup key c.cache ≡ some old
      → entry_bytes new ≡ entry_bytes old
      → IsValid hostname c
      → IsValid hostname (record c { cache = move_to_end key (put key new c.cache) })
  touched-IsValid key old new c found same v =
      let d = Distinct-put key new c.cache v.counted.distinct in
      record {
        counted = record {
          distinct = Distinct-move_to_end key (put key new c.cache) d;
          counted = ground (
            arith,
            total-move_to_end entry_bytes key (put key new c.cache) d,
            total-put entry_bytes key new c.cache,
            found,
            v.counted.counted,
            same,
          );
        };
        exact = λ d k. ground (
          arith,
          v.exact d k,
          has_key-move_to_end key k (put key new c.cache),
          has_key-put key k new c.cache,
          has_key-some key c.cache found,
          text_beq_iff key k,
        );
        few = ground (
          arith,
          size-move_to_end key (put key new c.cache) d,
          v.few,
          size-eq-total (put key new c.cache),
          size-eq-total c.cache,
          total-put (λ _. 1) key new c.cache,
          found,
        );
        small = v.small;
        room = v.room;
      }

  http_cache_remove-IsValid :
      (key : Text) (c : HttpCache)
      → IsValid hostname c
      → IsValid hostname (http_cache_remove hostname key c).1
  http_cache_remove-IsValid key c v = record {
    counted = http_cache_remove-IsCounted hostname key c v.counted;
    exact = λ d k. http_cache_remove-IsIndexed hostname key d k c (v.exact d k);
    few = (http_cache_remove_bounds hostname key c v.counted v.few v.small v.room).0;
    small = (http_cache_remove_bounds hostname key c v.counted v.few v.small v.room).1;
    room = (http_cache_remove_bounds hostname key c v.counted v.few v.small v.room).2;
  }

  http_cache_get-IsValid :
      (method url : Text) (hs : Headers) (now : ℕ) (c : HttpCache)
      → IsValid hostname c
      → IsValid hostname (http_cache_get hostname method url hs now c).1
  unfolding http_cache_get
  http_cache_get-IsValid method url hs now c v =
      if_elim (λ (r : Option Entry × HttpCache). IsValid hostname r.1)
        (not c.enabled || not (method == text "GET") || is_private hs) (λ _. v)
        (λ _. elim (Option-cases (lookup (cache_key method url) c.cache)) [
          | inl miss ↦ rw miss v
          | inr (e, hit) ↦ rw hit (
              if_elim (λ (r : Option Entry × HttpCache). IsValid hostname r.1)
                (ltb (e.cached_at + c.ttl) now)
                (λ _. http_cache_remove-IsValid (cache_key method url) c v)
                (λ _.
                  touched-IsValid (cache_key method url) e (record e { last_access = now }) c hit
                    refl v))
        ])

  http_cache_set-IsValid :
      (method url : Text) (status : ℕ) (reason : Text) (hs : Headers) (content : List ℕ)
      (rhs : Headers) (now : ℕ) (c : HttpCache)
      → IsValid hostname c
      → IsValid hostname (http_cache_set hostname method url status reason hs content rhs now c)
  unfolding http_cache_set
  http_cache_set-IsValid method url status reason hs content rhs now c v =
      if_elim (IsValid hostname)
        (not (method == text "GET")
          || is_private rhs
          || refuses_storage hs
          || ltb (c.max_bytes / 2) (length content))
        (λ _. v)
        (λ ok.
          let e : Entry = record {
            status_code = status;
            reason_phrase = reason;
            headers = hs;
            content = content;
            cached_at = now;
            last_access = now;
          } in
          let get : method ≡ text "GET" = ground (arith, text_beq_iff method (text "GET"), ok) in
          rw get (
            rw (← domain_of_key-cache_key hostname url)
              (store-Stored hostname (cache_key (text "GET") url) e c v
                (ground (arith, ok))).valid))

  http_cache_invalidate-IsValid :
      (domain : Text) (c : HttpCache)
      → IsValid hostname c
      → IsValid hostname (http_cache_invalidate hostname domain c)
  unfolding http_cache_invalidate
  http_cache_invalidate-IsValid domain c v = purged-IsValid hostname domain _ (
      remove_all-IsPurging hostname domain (or_nil (lookup domain c.domain_index))
        (popped hostname domain c) (popped-IsPurging hostname domain c v))

unfoldable pub perform : (Text → Option Text) → Call → HttpCache → HttpCache
perform hostname (get method url hs now) c = (http_cache_get hostname method url hs now c).1
perform hostname (set method url status reason hs content rhs now) c =
    http_cache_set hostname method url status reason hs content rhs now c
perform hostname (invalidate domain) c = http_cache_invalidate hostname domain c

unfoldable pub perform_all : (Text → Option Text) → List Call → HttpCache → HttpCache
perform_all hostname [] c = c
perform_all hostname (a ∷ as') c = perform_all hostname as' (perform hostname a c)

-- Whatever the router asks of the cache, from a valid one on: the byte count stays the sum of the
-- stored contents, the entries and the bytes stay within their limits, and the domain index lists
-- exactly the cached keys, each under its own domain.
pub perform_all-IsValid :
    (hostname : Text → Option Text) (calls : List Call) (c : HttpCache)
    → IsValid hostname c
    → IsValid hostname (perform_all hostname calls c)
unfolding perform_all perform
perform_all-IsValid hostname [] c v = v
perform_all-IsValid hostname (get method url hs now ∷ calls) c v =
    perform_all-IsValid hostname calls (http_cache_get hostname method url hs now c).1
      (http_cache_get-IsValid hostname method url hs now c v)
perform_all-IsValid hostname (set method url status reason hs content rhs now ∷ calls) c v =
    perform_all-IsValid hostname calls
      (http_cache_set hostname method url status reason hs content rhs now c)
      (http_cache_set-IsValid hostname method url status reason hs content rhs now c v)
perform_all-IsValid hostname (invalidate domain ∷ calls) c v =
    perform_all-IsValid hostname calls (http_cache_invalidate hostname domain c)
      (http_cache_invalidate-IsValid hostname domain c v)
