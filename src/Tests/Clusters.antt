-- ===== src/Tests/Clusters.antt =====
-- The graph of targets at concrete inputs.
use auto_squid.Cluster.{Config, Peers, Graph}
use auto_squid.Cluster.Predicting.{maybe_predict}
use auto_squid.Cluster.Edges.{Agree-nil}
use auto_squid.Cluster.Synced.{Yields, IsBounded}
use auto_squid.Cluster.Sweeping.{Event, asked, swept, replay, replay-IsBounded}
use auto_squid.Cluster.Predictions.{maybe_predict-launches, maybe_predict_early}
use auto_squid.Base.{
  ◌≤◌, ◌≡◌, refl, true, false, some, List, [], ◌∷◌, arith, nat_eq, text_eq, length, text,
}

abbrev clustering : Config
clustering = record {
  enabled = true;
  window = 2;
  topk = 3;
  min_support = 1;
  graph_ttl = 86_400;
  max_entries = 1;
  throttle = 30;
  fanout = 2;
  half_power = λ _. 500_000;
  can_spawn = true;
}

abbrev answers : Peers
answers = record { is_circuit_open = λ _. false; proxy = λ pid. some (pid, 8080) }

abbrev no_graph : Graph
no_graph = record {
  windows = [];
  cooccur = [];
  edge_lru = [];
  last_predict = [];
  windows_learned = 0;
  predictions = 0;
  prewarm_spawned = 0;
  bucket_spawns = 0;
  launches = [];
}

abbrev page : List Event
page =
    asked answers (text "c") (text "x") (some (text "p")) 100
    ∷ asked answers (text "c") (text "y") (some (text "q")) 101
    ∷ swept 110
    ∷ []

no_graph-IsBounded : IsBounded clustering no_graph
unfolding IsBounded
no_graph-IsBounded = (Agree-nil, omega arith)

replay-IsBounded_example : Yields (IsBounded clustering) (replay clustering page no_graph)
replay-IsBounded_example = replay-IsBounded clustering page no_graph no_graph-IsBounded

abbrev known : Graph
known = record no_graph {
  windows =
      (
        text "c",
        record { opened = 20; predicted = false; observed = (text "x", some (text "p")) ∷ [] },
      )
      ∷ [];
  cooccur =
      (
        text "x",
        (
          text "y",
          record {
            hits = 4;
            probe_pids = (text "q", 1_000_000) ∷ [];
            probe_pid = some (text "q");
            last_seen = 10;
          },
        )
            ∷ [],
      )
      ∷ [];
}

maybe_predict-launches_example :
    length (maybe_predict clustering answers (text "c") (text "x") 100 known).launches ≤ 6
maybe_predict-launches_example =
    maybe_predict-launches clustering answers (text "c") (text "x") 100 known (omega arith)

maybe_predict_early_example :
    (maybe_predict clustering answers (text "c") (text "x") 20 known).launches ≡ []
maybe_predict_early_example =
    maybe_predict_early clustering answers (text "c") (text "x") 20 known refl (omega arith)
