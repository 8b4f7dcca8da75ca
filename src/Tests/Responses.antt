-- ===== src/Tests/Responses.antt =====
-- The response cache at concrete inputs.
use auto_squid.HttpCache.{
  is_private, refuses_storage, first_header, HttpCache, http_cache_get, http_cache_set, is_private,
  refuses_storage,
}
use auto_squid.HttpCache.Validity.{IsValid}
use auto_squid.HttpCache.Preservation.{perform_all, perform_all-IsValid, get, set, invalidate}
use auto_squid.HttpCache.Reading.{response, http_cache_get-http_cache_set}
use auto_squid.Base.{
  contains, has_infix, starts_with, ◌≡◌, refl, true, Option, some, [], ◌∷◌, arith, nat_eq, Text,
  text_eq, text,
}
use auto_squid.Dict.{has_key, lookup, total, lookup}

-- a parser for the URLs below: the host is the URL itself
abbrev pub host : Text → Option Text
host url = some url

abbrev pub start : HttpCache
start = record {
  enabled = true;
  ttl = 60_000_000;
  max_entries = 2;
  max_bytes = 20;
  cache = [];
  bytes = 0;
  evictions = 0;
  domain_index = [];
}

start-IsValid : IsValid host start
unfolding lookup total contains has_key
start-IsValid = record {
  counted = record { distinct = tt; counted = refl };
  exact = λ d k. refl;
  few = omega arith;
  small = omega arith;
  room = omega arith;
}

perform_all-IsValid_example : IsValid host (
    perform_all host
      (set (text "GET") (text "a") 200 (text "OK") [] (1 ∷ 2 ∷ []) [] 5
        ∷ set (text "GET") (text "b") 200 (text "OK") [] (3 ∷ []) [] 6
        ∷ set (text "GET") (text "c") 200 (text "OK") [] (4 ∷ []) [] 7
        ∷ get (text "GET") (text "b") [] 8
        ∷ invalidate (text "c")
        ∷ [])
      start)
perform_all-IsValid_example =
    perform_all-IsValid host
      (set (text "GET") (text "a") 200 (text "OK") [] (1 ∷ 2 ∷ []) [] 5
        ∷ set (text "GET") (text "b") 200 (text "OK") [] (3 ∷ []) [] 6
        ∷ set (text "GET") (text "c") 200 (text "OK") [] (4 ∷ []) [] 7
        ∷ get (text "GET") (text "b") [] 8
        ∷ invalidate (text "c")
        ∷ [])
      start start-IsValid

http_cache_get-http_cache_set_example :
    (http_cache_get host
      (text "GET")
      (text "a")
      []
      9
      (http_cache_set host (text "GET") (text "a") 200 (text "OK") [] (1 ∷ 2 ∷ []) [] 5 start)).0
    ≡ some (response 200 (text "OK") [] (1 ∷ 2 ∷ []) 5 9)
unfolding is_private refuses_storage first_header has_infix starts_with
http_cache_get-http_cache_set_example =
    http_cache_get-http_cache_set host (text "a") 200 (text "OK") [] (1 ∷ 2 ∷ []) [] [] 5 9 start
      start-IsValid refl refl refl refl (omega arith) (omega arith)

abbrev old : HttpCache
old = record start {
  cache = (text "GET:a", response 200 (text "OK") [] (1 ∷ []) 5 5) ∷ [];
  bytes = 1;
  domain_index = (text "a", text "GET:a" ∷ []) ∷ [];
}
