-- ===== src/ProxyStore/Coherence.antt =====
-- The caches under every order of changes and questions.
use auto_squid.Base.{
  ℕ, ◌+◌, ◌≡◌, refl, sym, ap, inl, inr, Bool, false, Option, none, some, List, [], ◌∷◌, arith,
  if_elim, subst, ◌==◌, ◌&&◌, ◌||◌, ◌∙◌, contains-set_add, nat_eq, Text, text_eq, pair_eq,
  option_eq, contains,
}
use auto_squid.Dict.Laws.{remove_absent}
use auto_squid.ProxyStore.{
  ProxyInfo, ProxyStore, Writer, add, remove_proxy, add_each, load, proxy_url,
}
use auto_squid.ProxyStore.Endpoints.{
  norm_host, endpoints, World, new_world, proxy_endpoints_idx, is_internal_target, SplitUrl,
  url_port, ask_host, ask_split, url_is_proxy_endpoint, Event, added, removed, loaded, url_asked,
  target_asked, endpoint_asked, step, run,
}
use auto_squid.ProxyStore.Caches.{
  built, UrlsAgree, IndexAgrees, IsCoherent, IndexAgrees-later, add-UrlsAgree, remove-UrlsAgree,
  proxy_url-IsAsked,
}
use auto_squid.Dict.{Dict, size, lookup, put, remove}

-- a proxy that is enabled listens at the host and port
abbrev pub listens : Text → ℕ → Dict Text ProxyInfo → Bool
listens host port [] = false
listens host port ((k, p) ∷ d) =
    p.enabled && norm_host p.host == host && p.port == port || listens host port d

endpoints_lem :
    (host : Text) (port : ℕ) (d : Dict Text ProxyInfo)
    → contains (host, port) (endpoints d) ≡ listens host port d
unfolding endpoints contains
endpoints_lem host port [] = refl
endpoints_lem host port ((k, p) ∷ d) = ground (
  arith,
  endpoints_lem host port d,
  contains-set_add (norm_host p.host, p.port) (host, port) (endpoints d),
)

-- the same for a host as it is named in a request
abbrev pub is_endpoint : Text → ℕ → Dict Text ProxyInfo → Bool
is_endpoint [] port d = false
is_endpoint (c ∷ host) port d = listens (norm_host (c ∷ host)) port d

-- the index is right after a question, and nothing else has changed
abbrev IsIndexed : Writer → World → List (Text × ℕ) × World → Type 0
IsIndexed t w r = (r.0 ≡ endpoints w.store.proxies) × IsCoherent t r.1

index_of :
    (seen : Option ℕ) (version : ℕ) (index : List (Text × ℕ)) (d : Dict Text ProxyInfo)
    → seen ≡ some version
    → IndexAgrees seen version index d
    → index ≡ endpoints d
index_of seen version index d at h = elim (subst (λ o. IndexAgrees o version index d) at h) [
  | inl older ↦ absurd (omega (arith, older))
  | inr (same, made) ↦ made
]

proxy_endpoints_idx-IsIndexed :
    (t : Writer) (w : World) → IsCoherent t w → IsIndexed t w (proxy_endpoints_idx w)
unfolding proxy_endpoints_idx
proxy_endpoints_idx-IsIndexed t w (urls, indexed) =
    if_elim (IsIndexed t w) (w.seen == some w.store.version)
      (λ same. (
        index_of w.seen w.store.version w.index w.store.proxies
            ((option_eq.beq_iff w.seen (some w.store.version)).0 same) indexed,
        (urls, indexed),
      ))
      (λ _. (refl, (urls, inr (refl, refl))))

is_internal_target-IsCoherent :
    (t : Writer) (host : Text) (port : ℕ) (w : World)
    → IsCoherent t w
    → ((is_internal_target host port w).0 ≡ is_endpoint host port w.store.proxies)
      × IsCoherent t (is_internal_target host port w).1
unfolding is_internal_target
is_internal_target-IsCoherent t [] port w h = (refl, h)
is_internal_target-IsCoherent t (c ∷ host) port w h =
    let (made, coherent) = proxy_endpoints_idx-IsIndexed t w h in
    (
      ap (contains (norm_host (c ∷ host), port)) made
          ∙ endpoints_lem (norm_host (c ∷ host)) port w.store.proxies,
      coherent,
    )

ask_host-IsCoherent :
    (t : Writer) (u : SplitUrl) (o : Option Text) (w : World)
    → IsCoherent t w
    → IsCoherent t (ask_host u o w).1
ask_host-IsCoherent t u none w h = h
ask_host-IsCoherent t u (some host) w h = (is_internal_target-IsCoherent t host (url_port u) w h).1

ask_split-IsCoherent :
    (t : Writer) (o : Option SplitUrl) (w : World) → IsCoherent t w → IsCoherent t (ask_split o w).1
ask_split-IsCoherent t none w h = h
ask_split-IsCoherent t (some u) w h = ask_host-IsCoherent t u u.hostname w h

url_is_proxy_endpoint-IsCoherent :
    (t : Writer) (urlsplit : Text → Option SplitUrl) (url : Text) (w : World)
    → IsCoherent t w
    → IsCoherent t (url_is_proxy_endpoint urlsplit url w).1
unfolding url_is_proxy_endpoint
url_is_proxy_endpoint-IsCoherent t urlsplit url w h =
    let r = proxy_endpoints_idx w in
    let (made, coherent) = proxy_endpoints_idx-IsIndexed t w h in
    if_elim (λ (a : Bool × World). IsCoherent t a.1) (size r.0 == 0) (λ _. coherent)
      (λ _. ask_split-IsCoherent t (urlsplit url) r.1 coherent)

-- a table and what is kept of it
abbrev IsKept : Writer → Option ℕ → List (Text × ℕ) → ProxyStore → Type 0
IsKept t seen index s = UrlsAgree t s × IndexAgrees seen s.version index s.proxies

add-IsKept :
    (t : Writer) (seen : Option ℕ) (index : List (Text × ℕ)) (p : ProxyInfo) (s : ProxyStore)
    → IsKept t seen index s
    → IsKept t seen index (add p s)
unfolding add
add-IsKept t seen index p s (urls, indexed) = (
  add-UrlsAgree t p s urls,
  IndexAgrees-later seen s.version (s.version + 1) index s.proxies (put p.id p s.proxies)
      (omega arith) indexed,
)

add_each-IsKept :
    (t : Writer) (seen : Option ℕ) (index : List (Text × ℕ)) (ps : List ProxyInfo) (s : ProxyStore)
    → IsKept t seen index s
    → IsKept t seen index (add_each ps s)
unfolding add_each
add_each-IsKept t seen index [] s h = h
add_each-IsKept t seen index (p ∷ ps) s h =
    add_each-IsKept t seen index ps (add p s) (add-IsKept t seen index p s h)

load-IsKept :
    (t : Writer) (seen : Option ℕ) (index : List (Text × ℕ)) (ps : List ProxyInfo) (s : ProxyStore)
    → IsKept t seen index s
    → IsKept t seen index (load ps s)
unfolding load lookup
load-IsKept t seen index ps s h = (λ pid. tt, (add_each-IsKept t seen index ps s h).1)

removed_index :
    (k : Text) (seen : Option ℕ) (index : List (Text × ℕ)) (s : ProxyStore) (o : Option ProxyInfo)
    → lookup k s.proxies ≡ o
    → IndexAgrees seen s.version index s.proxies
    → IndexAgrees seen
        (elim o [ none ↦ s.version | some p ↦ s.version + 1 ])
        index
        (remove k s.proxies)
removed_index k seen index s none at h =
    subst (IndexAgrees seen s.version index) (sym (remove_absent k s.proxies at)) h
removed_index k seen index s (some p) at h =
    IndexAgrees-later seen s.version (s.version + 1) index s.proxies (remove k s.proxies)
      (omega arith) h

remove-IsKept :
    (t : Writer) (k : Text) (seen : Option ℕ) (index : List (Text × ℕ)) (s : ProxyStore)
    → IsKept t seen index s
    → IsKept t seen index (remove_proxy k s).1
unfolding remove_proxy
remove-IsKept t k seen index s (urls, indexed) =
    (remove-UrlsAgree t k s urls, removed_index k seen index s (lookup k s.proxies) refl indexed)

proxy_url-IsKept :
    (t : Writer) (pid : Text) (seen : Option ℕ) (index : List (Text × ℕ)) (s : ProxyStore)
    → IsKept t seen index s
    → IsKept t seen index (proxy_url t pid s).1
proxy_url-IsKept t pid seen index s (urls, indexed) =
    let (answer, same, proxies, version) = proxy_url-IsAsked t pid s urls in
    (
      same,
      subst (λ n. IndexAgrees seen n index (proxy_url t pid s).1.proxies) (sym version)
          (subst (IndexAgrees seen s.version index) (sym proxies) indexed),
    )

step-IsCoherent :
    (t : Writer) (urlsplit : Text → Option SplitUrl) (e : Event) (w : World)
    → IsCoherent t w
    → IsCoherent t (step t urlsplit e w)
unfolding step
step-IsCoherent t urlsplit (added p) w h = add-IsKept t w.seen w.index p w.store h
step-IsCoherent t urlsplit (removed pid) w h = remove-IsKept t pid w.seen w.index w.store h
step-IsCoherent t urlsplit (loaded ps) w h = load-IsKept t w.seen w.index ps w.store h
step-IsCoherent t urlsplit (url_asked pid) w h = proxy_url-IsKept t pid w.seen w.index w.store h
step-IsCoherent t urlsplit (target_asked host port) w h =
    (is_internal_target-IsCoherent t host port w h).1
step-IsCoherent t urlsplit (endpoint_asked url) w h =
    url_is_proxy_endpoint-IsCoherent t urlsplit url w h

run-IsCoherent :
    (t : Writer) (urlsplit : Text → Option SplitUrl) (es : List Event) (w : World)
    → IsCoherent t w
    → IsCoherent t (run t urlsplit es w)
unfolding run
run-IsCoherent t urlsplit [] w h = h
run-IsCoherent t urlsplit (e ∷ es) w h =
    run-IsCoherent t urlsplit es (step t urlsplit e w) (step-IsCoherent t urlsplit e w h)

-- From the start and after any changes of the table and any questions in between, the cached URL of
-- a proxy is the one built from its present entry, or none if it has no entry, and a target counts
-- as an upstream's endpoint exactly if a proxy that is enabled now listens there.
pub run-answers :
    (t : Writer) (urlsplit : Text → Option SplitUrl) (es : List Event) (pid host : Text) (port : ℕ)
    → ((proxy_url t pid (run t urlsplit es new_world).store).0
        ≡ built t (lookup pid (run t urlsplit es new_world).store.proxies))
      × ((is_internal_target host port (run t urlsplit es new_world)).0
          ≡ is_endpoint host port (run t urlsplit es new_world).store.proxies)
unfolding lookup
run-answers t urlsplit es pid host port =
    let w = run t urlsplit es new_world in
    let h = run-IsCoherent t urlsplit es new_world (λ k. tt, tt) in
    ((proxy_url-IsAsked t pid w.store h.0).0, (is_internal_target-IsCoherent t host port w h).0)
