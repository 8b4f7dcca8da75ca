-- ===== src/ProxyStore/Endpoints.antt =====
-- What the router keeps of the table of proxies: the index of their endpoints, made again when the
-- version of the table has changed (`_norm_host`, `_host_in_local_direct`, `_proxy_endpoints_idx`,
-- `_is_internal_target` and `_url_is_proxy_endpoint` of auto_squid/router.py).
use auto_squid.Base.{
  ℕ, Bool, false, ◌&&◌, ◌||◌, Option, none, some, List, [], ◌∷◌, if◌then◌else◌, ◌==◌, nat_eq, Text,
  text_eq, pair_eq, option_eq, drop, contains, set_add, text, lower, starts_with, strip,
}
use auto_squid.ProxyStore.{
  ProxyInfo, ProxyStore, Writer, new_store, add, remove_proxy, load, proxy_url,
}
use auto_squid.Dict.{Dict, size}

-- all but the last code point
unfoldable pub init : Text → Text
init [] = []
init (c ∷ []) = []
init (c ∷ d ∷ s) = c ∷ init (d ∷ s)

unfoldable pub ends_in : ℕ → Text → Bool
ends_in c [] = false
ends_in c (d ∷ []) = d == c
ends_in c (d ∷ e ∷ s) = ends_in c (e ∷ s)

abbrev pub unbracketed : Text → Text
unbracketed h = if starts_with (b'[' ∷ []) h && ends_in b']' h then init (drop 1 h) else h

abbrev pub undotted : Text → Text
undotted h = if ends_in b'.' h then init h else h

-- `_norm_host`
unfoldable pub norm_host : Text → Text
unfolding init ends_in
norm_host host = lower (undotted (unbracketed (strip host)))

-- `_host_in_local_direct`
unfoldable pub host_in_local_direct : List Text → Text → Bool
unfolding norm_host
host_in_local_direct domains [] = false
host_in_local_direct domains (c ∷ host) = contains (norm_host (c ∷ host)) domains

-- the set of the enabled proxies' endpoints
unfoldable pub endpoints : Dict Text ProxyInfo → List (Text × ℕ)
unfolding norm_host
endpoints [] = []
endpoints ((k, p) ∷ d) =
    let rest = endpoints d in if p.enabled then set_add (norm_host p.host, p.port) rest else rest

-- the table and `_proxy_hosts_cache`: the version that the index was made for, at first none
pub record World : Type 0 where
  pub store : ProxyStore
  pub seen : Option ℕ
  pub index : List (Text × ℕ)

abbrev pub new_world : World
new_world = record { store = new_store; seen = none; index = [] }

-- `_proxy_endpoints_idx`
unfoldable pub proxy_endpoints_idx : World → List (Text × ℕ) × World
unfolding endpoints
proxy_endpoints_idx w =
    let made = endpoints w.store.proxies in
    if w.seen == some w.store.version
    then (w.index, w)
    else (made, record w { seen = some w.store.version; index = made })

-- `_is_internal_target`
unfoldable pub is_internal_target : Text → ℕ → World → Bool × World
unfolding proxy_endpoints_idx
is_internal_target [] port w = (false, w)
is_internal_target (c ∷ host) port w =
    let (index, v) = proxy_endpoints_idx w in (contains (norm_host (c ∷ host), port) index, v)

-- the scheme, the host and the port that `urlsplit` finds
pub record SplitUrl : Type 0 where
  pub scheme : Text
  pub hostname : Option Text
  pub port : Option ℕ

abbrev pub default_port : Text → ℕ
default_port scheme = if scheme == text "https" || scheme == text "wss" then 443 else 80

abbrev pub url_port : SplitUrl → ℕ
url_port u = elim u.port [
  | none ↦ default_port u.scheme
  | some n ↦ if n == 0 then default_port u.scheme else n
]

abbrev pub ask_host : SplitUrl → Option Text → World → Bool × World
ask_host u none w = (false, w)
ask_host u (some host) w = is_internal_target host (url_port u) w

abbrev pub ask_split : Option SplitUrl → World → Bool × World
ask_split none w = (false, w)
ask_split (some u) w = ask_host u u.hostname w

-- `_url_is_proxy_endpoint`; `urlsplit` is an argument, `none` where it raises
unfoldable pub url_is_proxy_endpoint : (Text → Option SplitUrl) → Text → World → Bool × World
unfolding is_internal_target
url_is_proxy_endpoint urlsplit url w =
    let (index, v) = proxy_endpoints_idx w in
    if size index == 0 then (false, v) else ask_split (urlsplit url) v

-- what is called between two questions, in any order
pub data Event : Type 0 where
  added : ProxyInfo → Event
  removed : Text → Event
  loaded : List ProxyInfo → Event
  url_asked : Text → Event
  target_asked : Text → ℕ → Event
  endpoint_asked : Text → Event

abbrev pub with_store : World → ProxyStore → World
with_store w s = record w { store = s }

unfoldable pub step : Writer → (Text → Option SplitUrl) → Event → World → World
unfolding add remove_proxy load proxy_url is_internal_target url_is_proxy_endpoint
step t urlsplit (added p) w = with_store w (add p w.store)
step t urlsplit (removed pid) w = with_store w (remove_proxy pid w.store).1
step t urlsplit (loaded entries) w = with_store w (load entries w.store)
step t urlsplit (url_asked pid) w = with_store w (proxy_url t pid w.store).1
step t urlsplit (target_asked host port) w = (is_internal_target host port w).1
step t urlsplit (endpoint_asked url) w = (url_is_proxy_endpoint urlsplit url w).1

unfoldable pub run : Writer → (Text → Option SplitUrl) → List Event → World → World
unfolding step
run t urlsplit [] w = w
run t urlsplit (e ∷ es) w = run t urlsplit es (step t urlsplit e w)
