-- ===== src/Tests/Orders.antt =====
-- The order of the candidates at concrete inputs.
use auto_squid.Circuit
use auto_squid.Concurrency
use auto_squid.Circuit.{Circuits}
use auto_squid.Selector.{Quality}
use auto_squid.Order.{Proxy, Settings, Sources, ordered_for_domain, ordered_proxies}
use auto_squid.Order.Candidates.{ids, fits}
use auto_squid.Order.Sorting.{times, IsOrdered}
use auto_squid.Order.Laws.{
  Scores, tested, passed, deserved, ordered_for_domain_lem, ordered_for_domain-ordered_proxies,
}
use auto_squid.Order.Costs.{Weights, Readings}
use auto_squid.Base.{
  ℕ, ◌+◌, ◌*◌, ◌≡◌, refl, true, false, none, some, List, [], ◌∷◌, nat_eq, Text, text_eq, select,
  text,
}
use auto_squid.Dict.{lookup}

abbrev ranking : Settings
ranking = record {
  circuit = Circuit.make_config 3 60_000_000 30_000_000 3;
  conc = Concurrency.make_config false 10 1 100 1 7 10 20;
  fail_penalty_weight = 50;
  lb_bias = 1;
  load_power = λ n. 100 + n * 100;
  cost_sort = false;
}

abbrev seen : ℕ → Quality
seen ewma = record { ewma_ttfb = ewma; obs = 4; ts = 9 }

abbrev book : Sources
book = record {
  circuits = record { table = []; version = 0; open_count = 0 };
  concs = [];
  in_flight = record { counts = []; version = 0; max_in_flight = 0 };
  quality = (text "a", seen 300) ∷ (text "b", seen 100) ∷ [];
  domain_quality = [];
}

abbrev three : List Proxy
three =
    record { id = text "a"; enabled = true }
    ∷ record { id = text "b"; enabled = true }
    ∷ record { id = text "c"; enabled = false }
    ∷ []

abbrev as_is : List Text → List Text
as_is xs = xs

abbrev no_scores : Scores
no_scores r cands domain pid = 0

ordered_for_domain_example :
    IsOrdered
      (deserved ranking 50
        (no_scores (tested ranking 50 three book) (as_is (passed ranking 50 three book)) none)
        none
        book
        (tested ranking 50 three book))
      (ordered_for_domain ranking 50 as_is no_scores none three book).0
    × ((z : Text)
        → times z (ordered_for_domain ranking 50 as_is no_scores none three book).0
          ≡ times z (ids (select (fits ranking 50 book.in_flight book.circuits book.concs) three)))
ordered_for_domain_example =
    ordered_for_domain_lem ranking 50 as_is no_scores none three book (λ z xs. refl)

ordered_for_domain-ordered_proxies_example :
    ordered_for_domain ranking 50 as_is no_scores (some (text "d")) three book
    ≡ ordered_proxies ranking 50 as_is no_scores three book
unfolding lookup
ordered_for_domain-ordered_proxies_example =
    ordered_for_domain-ordered_proxies ranking 50 as_is no_scores (some (text "d")) three book refl
      refl

abbrev weights : Weights
weights = record {
  latency = 10;
  success_rate = 5;
  throughput = 1;
  by_p99 = false;
  min_samples = 5;
  min_bytes = 1000;
}

abbrev no_readings : Readings
no_readings = record { scopes = λ domain pid. [] }
