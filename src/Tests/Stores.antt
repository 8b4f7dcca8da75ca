-- ===== src/Tests/Stores.antt =====
-- The table of proxies, at a concrete history.
use auto_squid.Base.{
  ℕ, ◌≡◌, refl, true, Option, none, List, [], ◌∷◌, nat_eq, Text, text_eq, text_beq, contains, text,
  lower, starts_with, strip, set_add,
}
use auto_squid.ProxyStore.{ProxyInfo, Writer, proxy_url}
use auto_squid.ProxyStore.Endpoints.{
  SplitUrl, Event, added, url_asked, target_asked, new_world, run, is_internal_target,
}
use auto_squid.ProxyStore.Caches.{built}
use auto_squid.ProxyStore.Coherence.{is_endpoint, run-answers}
use auto_squid.Dict.{lookup, put, remove}

abbrev node : Text → ℕ → ProxyInfo
node host port = record {
  id = text "a";
  name = none;
  host = host;
  port = port;
  protocol = text "http";
  auth = [];
  enabled = true;
  tags = [];
}

abbrev writer : Writer
writer = record { quote = λ t. t; str = λ n. n ∷ [] }

abbrev no_urls : Text → Option SplitUrl
no_urls url = none

-- an entry is replaced after its URL was asked for and the index was made
abbrev history : List Event
history =
    added (node (text "one") b'1')
    ∷ url_asked (text "a")
    ∷ target_asked (text "one") b'1'
    ∷ added (node (text "two.") b'2')
    ∷ []

run-answers_example :
    ((proxy_url writer (text "a") (run writer no_urls history new_world).store).0
      ≡ built writer (lookup (text "a") (run writer no_urls history new_world).store.proxies))
    × ((is_internal_target (text "TWO") b'2' (run writer no_urls history new_world)).0
        ≡ is_endpoint (text "TWO") b'2' (run writer no_urls history new_world).store.proxies)
run-answers_example = run-answers writer no_urls history (text "a") (text "TWO") b'2'

asked_again : (is_internal_target (text "TWO") b'2' (run writer no_urls history new_world)).0 ≡ true
unfolding is_internal_target run lookup text_beq contains strip lower put remove starts_with
    auto_squid.Base.set_add
asked_again = refl
