-- ===== src/HttpCache/Evicting.antt =====
-- The byte count and the domain index under removals, and the eviction loop of a store.
use auto_squid.HttpCache.{
  HttpCache, entry_bytes, or_nil, keep_or_delete, unindex, index_key, domain_of_key,
  http_cache_remove,
}
use auto_squid.Base.{
  ◌≡◌, not, ◌&&◌, ◌||◌, List, arith, if◌then◌else◌, ◌==◌, nat_eq, Text, text_eq, text_beq_iff,
  pair_eq, contains, set_add, contains-set_add, refl, Option, [], ◌∷◌, set_discard,
  contains-set_discard,
}
use auto_squid.Dict.{Dict, lookup, total, has_key, Distinct}
use auto_squid.Dict.Laws.{lookup-put, lookup-remove, Distinct-remove, has_key-remove}
use auto_squid.Dict.Measure.{total-remove}

-- the keys that the index lists for a domain
abbrev pub indexed : Text → Dict Text (List Text) → List Text
indexed d index = or_nil (lookup d index)

indexed-keep_or_delete :
    (host d k : Text) (rest : List Text) (index : Dict Text (List Text))
    → contains k (indexed d (keep_or_delete host rest index))
      ≡ (if host == d then contains k rest else contains k (indexed d index))
unfolding keep_or_delete contains
indexed-keep_or_delete host d k [] index = ground (arith, lookup-remove host d index)
indexed-keep_or_delete host d k (r ∷ rest) index =
    ground (arith, lookup-put host d (r ∷ rest) index)

unindex_eq :
    (host key : Text) (index : Dict Text (List Text)) (l : List Text)
    → indexed host index ≡ l
    → (d k : Text)
    → contains k (indexed d (unindex host key index))
      ≡ (if host == d then contains k (set_discard key l) else contains k (indexed d index))
unfolding unindex contains
unindex_eq host key index [] h d k =
    rw (h, unindex) (unfold set_discard in ground (arith, text_beq_iff host d, h))
unindex_eq host key index (x ∷ l) h d k =
    rw (h, unindex) (indexed-keep_or_delete host d k (set_discard key (x ∷ l)) index)

pub indexed-unindex :
    (host key d k : Text) (index : Dict Text (List Text))
    → contains k (indexed d (unindex host key index)) ≡ (
        if host == d
        then not (key == k) && contains k (indexed d index)
        else contains k (indexed d index))
indexed-unindex host key d k index = ground (
  arith,
  unindex_eq host key index (indexed host index) refl d k,
  contains-set_discard key k (indexed host index),
  text_beq_iff host d,
)

pub indexed-index_key :
    (host key d k : Text) (index : Dict Text (List Text))
    → contains k (indexed d (index_key host key index)) ≡ (
        if host == d
        then key == k || contains k (indexed d index)
        else contains k (indexed d index))
unfolding index_key
indexed-index_key host key d k index = ground (
  arith,
  lookup-put host d (set_add key (indexed host index)) index,
  contains-set_add key k (indexed d index),
  text_beq_iff host d,
)

-- a cache whose keys are distinct and whose byte count is right
pub record IsCounted (c : HttpCache) : Type 0 where
  pub distinct : Distinct c.cache
  pub counted : c.bytes ≡ total entry_bytes c.cache

module _ (hostname : Text → Option Text) where
  -- the index lists a key under a domain exactly if the key is cached and belongs to the domain
  abbrev pub IsIndexed : Text → Text → HttpCache → Type 0
  IsIndexed d k c =
      contains k (indexed d c.domain_index) ≡ (has_key k c.cache && domain_of_key hostname k == d)

  pub http_cache_remove-IsIndexed :
      (key d k : Text) (c : HttpCache)
      → IsIndexed d k c
      → IsIndexed d k (http_cache_remove hostname key c).1
  unfolding http_cache_remove
  http_cache_remove-IsIndexed key d k c h = ground (
    arith,
    h,
    indexed-unindex (domain_of_key hostname key) key d k c.domain_index,
    has_key-remove key k c.cache,
    text_beq_iff key k,
    text_beq_iff (domain_of_key hostname key) d,
    text_beq_iff (domain_of_key hostname k) d,
  )

  pub http_cache_remove-IsCounted :
      (key : Text) (c : HttpCache) → IsCounted c → IsCounted (http_cache_remove hostname key c).1
  unfolding http_cache_remove
  http_cache_remove-IsCounted key c h = record {
    distinct = ground (arith, Distinct-remove key c.cache h.distinct, h.distinct);
    counted = ground (arith, total-remove entry_bytes key c.cache h.distinct, h.counted);
  }
