-- ===== src/HttpCache.antt =====
-- The shared cache of GET responses (auto_squid/http_cache.py). Times are microseconds of the wall
-- clock, contents are lists of bytes, and `hostname` is `urllib.parse.urlparse(url).hostname`, with
-- `none` for a URL that has none or that it refuses.
pub mod Evicting
pub mod Loop
pub mod Validity
pub mod Purging
pub mod Preservation
pub mod Reading
pub mod Invalidating
use auto_squid.Base.{
  ℕ, zero, suc, ◌+◌, ◌-◌, ◌/◌, max, Bool, true, false, not, ◌&&◌, ◌||◌, Option, none, some, List,
  [], ◌∷◌, ◌++◌, map, ltb, leb, if◌then◌else◌, ◌==◌, nat_eq, Text, text_eq, pair_eq, length, take,
  drop, any, contains, set_add, set_discard, text, lower, starts_with, has_infix,
}
use auto_squid.Dict.{Dict, size, lookup, put, remove, move_to_end}

-- `CACHEABLE_STATUS`
unfoldable pub cacheable_status : ℕ → Bool
cacheable_status s = contains s (200 ∷ 203 ∷ 300 ∷ 301 ∷ 302 ∷ 404 ∷ 410 ∷ [])

abbrev pub Headers : Type 0
Headers = List (Text × Text)

pub record Entry : Type 0 where
  pub status_code : ℕ
  pub reason_phrase : Text
  pub headers : Headers
  pub content : List ℕ
  pub cached_at : ℕ
  pub last_access : ℕ

pub record HttpCache : Type 0 where
  pub enabled : Bool
  pub ttl : ℕ
  pub max_entries : ℕ
  pub max_bytes : ℕ
  pub cache : Dict Text Entry
  pub bytes : ℕ
  pub evictions : ℕ
  pub domain_index : Dict Text (List Text)

-- `__init__`
unfoldable pub new_cache : Bool → ℕ → ℕ → ℕ → HttpCache
new_cache enabled ttl max_entries max_bytes = record {
  enabled = enabled;
  ttl = max 1_000_000 ttl;
  max_entries = max 1 max_entries;
  max_bytes = max 1 max_bytes;
  cache = [];
  bytes = 0;
  evictions = 0;
  domain_index = [];
}

-- `domain_key_from_url`: the characters that its pattern lets through
unfoldable pub is_url_code : ℕ → Bool
is_url_code c =
    (leb b'A' c && leb c b'Z')
    || (leb b'a' c && leb c b'z')
    || (leb b'0' c && leb c b'9')
    || contains c (text "._~:/?#[]@!$()*+,;=%-")

unfoldable pub sanitize : Text → Text
unfolding is_url_code
sanitize s = take 253 (map (λ c. if is_url_code c then c else b'_') s)

abbrev pub or_text : Text → Text → Text
or_text [] d = d
or_text (c ∷ s) d = c ∷ s

unfoldable pub domain_key_from_url : (Text → Option Text) → Text → Text
unfolding sanitize
domain_key_from_url hostname url =
    or_text (elim (hostname url) [ none ↦ [] | some h ↦ h ])
      (or_text (sanitize url) (text "unknown"))

-- `_http_cache_key`
abbrev pub cache_key : Text → Text → Text
cache_key method url = method ++ b':' ∷ url

-- the headers whose presence marks a request as private
unfoldable pub is_private_name : Text → Bool
is_private_name k =
    let l = lower k in
    l == text "cookie" || l == text "authorization" || l == text "proxy-authorization"

unfoldable pub is_private : Headers → Bool
unfolding is_private_name
is_private hs = any (λ h. is_private_name h.0) hs

-- whitespace of `str.strip` among the code points of a header
unfoldable pub is_space : ℕ → Bool
is_space c = (leb 9 c && leb c 13) || (leb 28 c && leb c 32) || c == 133 || c == 160

-- the value of the first header with a name, or the empty text
unfoldable pub first_header : Text → Headers → Text
first_header name [] = []
first_header name ((k, v) ∷ hs) = if lower k == name then v else first_header name hs

-- the three tests of `_http_cache_set` on the response headers
unfoldable pub refuses_storage : Headers → Bool
unfolding first_header is_space
refuses_storage hs =
    let cc = first_header (text "cache-control") hs in
    any (λ h. lower h.0 == text "set-cookie") hs
    || any (λ h. lower h.0 == text "vary" && any (λ c. not (is_space c)) h.1) hs
    || has_infix (text "no-store") cc
    || has_infix (text "no-cache") cc
    || has_infix (text "private") cc

abbrev pub entry_bytes : Entry → ℕ
entry_bytes e = length e.content

abbrev pub or_nil : Option (List Text) → List Text
or_nil none = []
or_nil (some ks) = ks

-- `idx.discard(key)`, then `del` of a set that has become empty
unfoldable pub keep_or_delete : Text → List Text → Dict Text (List Text) → Dict Text (List Text)
keep_or_delete host [] index = remove host index
keep_or_delete host (k ∷ ks) index = put host (k ∷ ks) index

-- take a key out of its domain's set; an absent or empty set is left alone
unfoldable pub unindex : Text → Text → Dict Text (List Text) → Dict Text (List Text)
unfolding keep_or_delete
unindex host key index = elim (or_nil (lookup host index)) [
  | [] ↦ index
  | k ∷ ks ↦ keep_or_delete host (set_discard key (k ∷ ks)) index
]

-- `setdefault(host, set()).add(key)`
unfoldable pub index_key : Text → Text → Dict Text (List Text) → Dict Text (List Text)
index_key host key index = put host (set_add key (or_nil (lookup host index))) index

-- the condition of the eviction loop
unfoldable pub over_limit : HttpCache → Bool
over_limit c = ltb c.max_entries (size c.cache) || ltb c.max_bytes c.bytes

-- a store before its evictions: the old bytes are given back, the entry goes to the end
unfoldable pub stored : Text → Entry → HttpCache → HttpCache
stored key e c = record c {
  cache = move_to_end key (put key e c.cache);
  bytes =
      c.bytes - elim (lookup key c.cache) [ none ↦ 0 | some old ↦ entry_bytes old ] + entry_bytes e;
}

module _ (hostname : Text → Option Text) where
  -- the domain under which `_http_cache_remove` looks a key up
  unfoldable pub domain_of_key : Text → Text
  unfolding domain_key_from_url
  domain_of_key key =
      domain_key_from_url hostname (if starts_with (text "GET:") key then drop 4 key else key)

  -- `_http_cache_remove`
  unfoldable pub http_cache_remove : Text → HttpCache → Bool × HttpCache
  http_cache_remove key c = elim (lookup key c.cache) [
    | none ↦ (false, c)
    | some e ↦ (
      true,
      record c {
        cache = remove key c.cache;
        bytes = c.bytes - entry_bytes e;
        domain_index = unindex (domain_of_key key) key c.domain_index;
      },
    )
  ]

  -- `_http_cache_get`
  unfoldable pub http_cache_get : Text → Text → Headers → ℕ → HttpCache → Option Entry × HttpCache
  http_cache_get method url headers now c =
      if not c.enabled || not (method == text "GET") || is_private headers
      then (none, c)
      else elim (lookup (cache_key method url) c.cache) [
        | none ↦ (none, c)
        | some e ↦
            if ltb (e.cached_at + c.ttl) now
            then (none, (http_cache_remove (cache_key method url) c).1)
            else (
              some (record e { last_access = now }),
              record c {
                cache =
                    move_to_end (cache_key method url)
                      (put (cache_key method url) (record e { last_access = now }) c.cache);
              },
            )
      ]

  -- the eviction loop of `_http_cache_set`; each round removes an entry, so the number of entries is
  -- enough fuel
  unfoldable pub evict_loop : ℕ → HttpCache → HttpCache
  unfolding over_limit
  evict_loop zero c = c
  evict_loop (suc fuel) c = elim (over_limit c) [
    | false ↦ c
    | true ↦ elim c.cache [
      | [] ↦ c
      | (oldest, _) ∷ _ ↦
          let c' = (http_cache_remove oldest c).1 in
          evict_loop fuel (record c' { evictions = c'.evictions + 1 })
    ]
  ]

  -- the part of `_http_cache_set` that stores, once every refusal is past
  unfoldable pub store : Text → Text → Entry → HttpCache → HttpCache
  unfolding stored
  store host key e c =
      let c' = stored key e c in
      let c'' = evict_loop (size c'.cache) c' in
      record c'' { domain_index = index_key host key c''.domain_index }

  -- `_http_cache_set`
  unfoldable pub http_cache_set :
      Text → Text → ℕ → Text → Headers → List ℕ → Headers → ℕ → HttpCache → HttpCache
  unfolding store
  http_cache_set method url status_code reason headers content request_headers now c =
      if not (method == text "GET")
        || is_private request_headers
        || refuses_storage headers
        || ltb (c.max_bytes / 2) (length content)
      then c
      else store (domain_key_from_url hostname url) (cache_key method url)
          (record {
            status_code = status_code;
            reason_phrase = reason;
            headers = headers;
            content = content;
            cached_at = now;
            last_access = now;
          })
          c

  -- the loop of `_http_cache_invalidate`
  unfoldable pub remove_all : List Text → HttpCache → HttpCache
  remove_all [] c = c
  remove_all (k ∷ ks) c = remove_all ks (http_cache_remove k c).1

  -- `_http_cache_invalidate`
  unfoldable pub http_cache_invalidate : Text → HttpCache → HttpCache
  unfolding remove_all
  http_cache_invalidate domain c =
      remove_all (or_nil (lookup domain c.domain_index))
        (record c { domain_index = remove domain c.domain_index })
