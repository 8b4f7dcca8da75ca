-- ===== src/ProxyStore/Caches.antt =====
-- What is kept is what would be made anew.
use auto_squid.Base.{
  ℕ, ◌<◌, ◌≡◌, refl, sym, ap, ◌∙◌, ◌⊎◌, inl, inr, Bool, true, false, Option, none, some, List,
  arith, if◌then◌else◌, if_elim, subst, ◌==◌, nat_eq, Text, text_eq, pair_eq, option_eq,
}
use auto_squid.Dict.Laws.{lookup-put, lookup-remove, kept}
use auto_squid.ProxyStore.{
  ProxyInfo, ProxyStore, Writer, add, remove_proxy, built_url, cached_or, proxy_url,
}
use auto_squid.ProxyStore.Endpoints.{endpoints, World}
use auto_squid.Dict.{Dict, lookup}

abbrev pub built : Writer → Option ProxyInfo → Option Text
built t none = none
built t (some p) = some (built_url t p)

-- a URL that is kept is the proxy's
abbrev pub Agrees : Writer → Option Text → Option ProxyInfo → Type 0
Agrees t none o = Unit
Agrees t (some url) o = built t o ≡ some url

abbrev pub UrlsAgree : Writer → ProxyStore → Type 0
UrlsAgree t s = (pid : Text) → Agrees t (lookup pid s.url_cache) (lookup pid s.proxies)

-- an index that was made for a version is older, or that of the table
abbrev pub IndexAgrees : Option ℕ → ℕ → List (Text × ℕ) → Dict Text ProxyInfo → Type 0
IndexAgrees none version index proxies = Unit
IndexAgrees (some v) version index proxies =
    (v < version) ⊎ ((v ≡ version) × (index ≡ endpoints proxies))

abbrev pub IsCoherent : Writer → World → Type 0
IsCoherent t w = UrlsAgree t w.store × IndexAgrees w.seen w.store.version w.index w.store.proxies

pub IndexAgrees-later :
    (seen : Option ℕ) (m n : ℕ) (index : List (Text × ℕ)) (d e : Dict Text ProxyInfo)
    → m < n
    → IndexAgrees seen m index d
    → IndexAgrees seen n index e
IndexAgrees-later none m n index d e lt h = tt
IndexAgrees-later (some v) m n index d e lt (inl older) = inl (omega (arith, lt, older))
IndexAgrees-later (some v) m n index d e lt (inr (same, made)) = inl (omega (arith, lt, same))

Agrees-if :
    (t : Writer) (b : Bool) (c : Option Text) (x o : Option ProxyInfo)
    → Agrees t c o
    → Agrees t (if b then none else c) (if b then x else o)
Agrees-if t true c x o h = tt
Agrees-if t false c x o h = h

Agrees-along :
    (t : Writer) {c d : Option Text} {o x : Option ProxyInfo}
    → c ≡ d
    → o ≡ x
    → Agrees t d x
    → Agrees t c o
Agrees-along t {c} {d} {o} {x} p q h =
    subst (λ a. Agrees t a o) (sym p) (subst (λ a. Agrees t d a) (sym q) h)

pub add-UrlsAgree :
    (t : Writer) (p : ProxyInfo) (s : ProxyStore) → UrlsAgree t s → UrlsAgree t (add p s)
unfolding add
add-UrlsAgree t p s h pid =
    Agrees-along t (lookup-remove p.id pid s.url_cache) (lookup-put p.id pid p s.proxies)
      (Agrees-if t (p.id == pid) (lookup pid s.url_cache) (some p) (lookup pid s.proxies) (h pid))

pub remove-UrlsAgree :
    (t : Writer) (k : Text) (s : ProxyStore) → UrlsAgree t s → UrlsAgree t (remove_proxy k s).1
unfolding remove_proxy
remove-UrlsAgree t k s h pid =
    Agrees-along t (lookup-remove k pid s.url_cache) (lookup-remove k pid s.proxies)
      (Agrees-if t (k == pid) (lookup pid s.url_cache) none (lookup pid s.proxies) (h pid))

-- a question leaves the proxies and the version
abbrev pub IsAsked : Writer → ProxyStore → Option ProxyInfo → Option Text × ProxyStore → Type 0
IsAsked t s o r =
    (r.0 ≡ built t o) × UrlsAgree t r.1 × (r.1.proxies ≡ s.proxies) × (r.1.version ≡ s.version)

put-Agrees :
    (t : Writer) (pid j : Text) (p : ProxyInfo) (s : ProxyStore)
    → UrlsAgree t s
    → lookup pid s.proxies ≡ some p
    → Agrees t
        (if pid == j then some (built_url t p) else lookup j s.url_cache)
        (lookup j s.proxies)
put-Agrees t pid j p s h at =
    if_elim (λ c. Agrees t c (lookup j s.proxies)) (pid == j)
      (λ same.
        ap (built t) (ap (λ k. lookup k s.proxies) (sym ((text_eq.beq_iff pid j).0 same)) ∙ at))
      (λ _. h j)

cached_or-IsAsked :
    (t : Writer) (pid : Text) (p : ProxyInfo) (s : ProxyStore) (c : Option Text)
    → UrlsAgree t s
    → lookup pid s.proxies ≡ some p
    → lookup pid s.url_cache ≡ c
    → IsAsked t s (some p) (cached_or pid s c (built_url t p))
cached_or-IsAsked t pid p s none h at kept = (
  refl,
  λ j.
      Agrees-along t (lookup-put pid j (built_url t p) s.url_cache) refl
        (put-Agrees t pid j p s h at),
  refl,
  refl,
)
cached_or-IsAsked t pid p s (some url) h at kept = (
  sym (ap (built t) (sym at) ∙ subst (λ c. Agrees t c (lookup pid s.proxies)) kept (h pid)),
  h,
  refl,
  refl,
)

asked_lem :
    (t : Writer) (pid : Text) (s : ProxyStore) (o : Option ProxyInfo)
    → UrlsAgree t s
    → lookup pid s.proxies ≡ o
    → IsAsked t s o (elim o [
      | none ↦ (none, s)
      | some p ↦ cached_or pid s (lookup pid s.url_cache) (built_url t p)
    ])
asked_lem t pid s none h at = (refl, h, refl, refl)
asked_lem t pid s (some p) h at = cached_or-IsAsked t pid p s (lookup pid s.url_cache) h at refl

pub proxy_url-IsAsked :
    (t : Writer) (pid : Text) (s : ProxyStore)
    → UrlsAgree t s
    → IsAsked t s (lookup pid s.proxies) (proxy_url t pid s)
unfolding proxy_url
proxy_url-IsAsked t pid s h = asked_lem t pid s (lookup pid s.proxies) h refl
