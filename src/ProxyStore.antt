-- ===== src/ProxyStore.antt =====
-- The table of upstream proxies (auto_squid/proxy_store.py) with its cache of URLs. `quote` and the
-- way a port is written are arguments; the entries of the YAML file come as a list.
pub mod Endpoints
pub mod Caches
pub mod Coherence
use auto_squid.Base.{
  ℕ, ◌+◌, Bool, Option, none, some, List, [], ◌∷◌, ◌++◌, if◌then◌else◌, ◌==◌, nat_eq, Text, text_eq,
  pair_eq, option_eq, text,
}
use auto_squid.Dict.{Dict, size, lookup, put, remove}

pub record ProxyInfo : Type 0 where
  pub id : Text
  pub name : Option Text
  pub host : Text
  pub port : ℕ
  pub protocol : Text
  pub auth : Dict Text Text
  pub enabled : Bool
  pub tags : Dict Text Text

pub record ProxyStore : Type 0 where
  pub proxies : Dict Text ProxyInfo
  pub url_cache : Dict Text Text
  pub version : ℕ

-- `urllib.parse.quote` with no safe characters, and how f-strings write a number
pub record Writer : Type 0 where
  pub quote : Text → Text
  pub str : ℕ → Text

abbrev pub new_store : ProxyStore
new_store = record { proxies = []; url_cache = []; version = 0 }

unfoldable pub add : ProxyInfo → ProxyStore → ProxyStore
add p s = record {
  proxies = put p.id p s.proxies;
  url_cache = remove p.id s.url_cache;
  version = s.version + 1;
}

-- the proxy that was removed, if there was one
unfoldable pub remove_proxy : Text → ProxyStore → Option ProxyInfo × ProxyStore
remove_proxy pid s = (
  lookup pid s.proxies,
  record {
    proxies = remove pid s.proxies;
    url_cache = remove pid s.url_cache;
    version = elim (lookup pid s.proxies) [ none ↦ s.version | some p ↦ s.version + 1 ];
  },
)

unfoldable pub add_each : List ProxyInfo → ProxyStore → ProxyStore
unfolding add
add_each [] s = s
add_each (p ∷ ps) s = add_each ps (add p s)

unfoldable pub load : List ProxyInfo → ProxyStore → ProxyStore
unfolding add_each
load entries s = record (add_each entries s) { url_cache = [] }

abbrev pub field : Text → Dict Text Text → Text
field k d = elim (lookup k d) [ none ↦ [] | some v ↦ v ]

abbrev pub address : Writer → ProxyInfo → Text
address w p = p.host ++ b':' ∷ w.str p.port

-- the URL with the credentials, if there are any; an empty dictionary stands for no `auth` too
unfoldable pub built_url : Writer → ProxyInfo → Text
built_url w p =
    if size p.auth == 0
    then text "http://" ++ address w p
    else text "http://"
      ++ w.quote (field (text "username") p.auth)
      ++ b':' ∷ w.quote (field (text "password") p.auth)
      ++ b'@' ∷ address w p

abbrev pub cached_or : Text → ProxyStore → Option Text → Text → Option Text × ProxyStore
cached_or pid s (some cached) url = (some cached, s)
cached_or pid s none url = (some url, record s { url_cache = put pid url s.url_cache })

unfoldable pub proxy_url : Writer → Text → ProxyStore → Option Text × ProxyStore
unfolding built_url
proxy_url w pid s = elim (lookup pid s.proxies) [
  | none ↦ (none, s)
  | some p ↦ cached_or pid s (lookup pid s.url_cache) (built_url w p)
]
