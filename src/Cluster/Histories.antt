-- ===== src/Cluster/Histories.antt =====
-- The graph over any sequence of requests and sweeps.
use auto_squid.Cluster.{CoEntry, Window, Config, Peers, Graph, Mark, close_and_learn}
use auto_squid.Cluster.Predicting.{
  fire_all, launch, predict_one, predict_each, resolve_top, ranked, count_prediction, predict_row,
  predict_window, maybe_predict, observed_targets, last_time,
}
use auto_squid.Cluster.Observing.{fresh_window, note, observe_in, observe}
use auto_squid.Cluster.Edges.{Agree}
use auto_squid.Cluster.Synced.{Yields, Yields-then, IsBounded, close_and_learn-IsBounded}
use auto_squid.Base.{
  ℕ, pair_eq, nat_eq, text_eq, option_eq, ◌+◌, ◌≤◌, ◌≡◌, refl, sym, ◌∙◌, Bool, true, false, not,
  ◌||◌, Option, none, some, List, [], ◌∷◌, ◌++◌, ltb, if_elim, subst, Text, length, take, contains,
}
use auto_squid.Dict.{Dict, size, lookup, put}

-- both tables of edges
abbrev Tables : Type 0
Tables = Dict (Text × Text) Mark × Dict Text (Dict Text CoEntry)

abbrev tables : Graph → Tables
tables g = (g.edge_lru, g.cooccur)

same_tables : (cfg : Config) (g h : Graph) → tables h ≡ tables g → IsBounded cfg g → IsBounded cfg h
unfolding IsBounded
same_tables cfg g h eq b = (
  subst (λ (t : Tables). Agree t.0 t.1) (sym eq) b.0,
  subst (λ (t : Tables). size t.0 ≤ cfg.max_entries) (sym eq) b.1,
)

tables-fire_all :
    (cfg : Config) (co : Text) (ps : List (Text × ℕ)) (g : Graph)
    → tables (fire_all cfg co ps g) ≡ tables g
unfolding fire_all
tables-fire_all cfg co [] g = refl
tables-fire_all cfg co ((host, port) ∷ ps) g =
    let fired : Graph = record g {
      prewarm_spawned = g.prewarm_spawned + 1;
      launches = record { host = host; port = port; target = co } ∷ g.launches;
    } in
    if_elim (λ h. tables (fire_all cfg co ps h) ≡ tables g) cfg.can_spawn
      (λ _. tables-fire_all cfg co ps fired) (λ _. tables-fire_all cfg co ps g)

tables-launch :
    (cfg : Config) (pair : Text × Text) (now : ℕ) (ps : List (Text × ℕ)) (r : Bool × Graph)
    → tables (launch cfg pair now ps r).1 ≡ tables r.1
tables-launch cfg pair now [] r = refl
tables-launch cfg pair now (p ∷ ps) (fired, g) = tables-fire_all cfg pair.1 (p ∷ ps) (record g {
  last_predict = put pair now g.last_predict;
  bucket_spawns = g.bucket_spawns + length (p ∷ ps);
})

tables-predict_one :
    (cfg : Config) (peers : Peers) (t : Text) (seen : List Text) (now : ℕ) (co : Text)
    (o : Option CoEntry) (r : Bool × Graph)
    → tables (predict_one cfg peers t seen now co o r).1 ≡ tables r.1
unfolding predict_one
tables-predict_one cfg peers t seen now co none r = refl
tables-predict_one cfg peers t seen now co (some e) r =
    if_elim (λ (q : Bool × Graph). tables q.1 ≡ tables r.1)
      (contains co seen
        || ltb e.hits cfg.min_support
        || ltb now (last_time (lookup (t, co) r.1.last_predict) + cfg.throttle))
      (λ _. refl) (λ _. tables-launch cfg (t, co) now (resolve_top peers e.probe_pids cfg.fanout) r)

tables-predict_each :
    (cfg : Config) (peers : Peers) (t : Text) (seen : List Text) (now : ℕ) (out : Dict Text CoEntry)
    (xs : List ((ℕ × ℕ) × Text)) (r : Bool × Graph)
    → tables (predict_each cfg peers t seen now out xs r).1 ≡ tables r.1
unfolding predict_each
tables-predict_each cfg peers t seen now out [] r = refl
tables-predict_each cfg peers t seen now out ((k, co) ∷ xs) r =
    let q = predict_one cfg peers t seen now co (lookup co out) r in
    tables-predict_each cfg peers t seen now out xs q
    ∙ tables-predict_one cfg peers t seen now co (lookup co out) r

tables-count_prediction : (r : Bool × Graph) → tables (count_prediction r) ≡ tables r.1
tables-count_prediction (false, g) = refl
tables-count_prediction (true, g) = refl

tables-predict_row :
    (cfg : Config) (peers : Peers) (ip t : Text) (win : Window) (now : ℕ)
    (o : Option (Dict Text CoEntry)) (g : Graph)
    → tables (predict_row cfg peers ip t win now o g) ≡ tables g
tables-predict_row cfg peers ip t win now none g = refl
tables-predict_row cfg peers ip t win now (some out) g =
    let top = take cfg.topk (ranked (λ (e : CoEntry). (e.hits, e.last_seen)) out) in
    let h : Graph = record g { windows = put ip (record win { predicted = true }) g.windows } in
    let seen = observed_targets win.observed in
    tables-count_prediction (predict_each cfg peers t seen now out top (false, h))
    ∙ tables-predict_each cfg peers t seen now out top (false, h)

tables-predict_window :
    (cfg : Config) (peers : Peers) (ip t : Text) (now : ℕ) (o : Option Window) (g : Graph)
    → tables (predict_window cfg peers ip t now o g) ≡ tables g
tables-predict_window cfg peers ip t now none g = refl
tables-predict_window cfg peers ip t now (some win) g =
    if_elim (λ h. tables h ≡ tables g) win.predicted (λ _. refl)
      (λ _. tables-predict_row cfg peers ip t win now (lookup t g.cooccur) g)

pub tables-maybe_predict :
    (cfg : Config) (peers : Peers) (ip t : Text) (now : ℕ) (g : Graph)
    → tables (maybe_predict cfg peers ip t now g) ≡ tables g
unfolding maybe_predict
tables-maybe_predict cfg peers ip t now g =
    if_elim (λ h. tables h ≡ tables g) (not cfg.enabled) (λ _. refl)
      (λ _. tables-predict_window cfg peers ip t now (lookup ip g.windows) g)

tables-note :
    (cfg : Config) (peers : Peers) (ip t : Text) (pid : Option Text) (now : ℕ) (win : Window)
    (g : Graph)
    → tables (note cfg peers ip t pid now win g) ≡ tables g
tables-note cfg peers ip t none now win g = refl
tables-note cfg peers ip t (some pid) now win g =
    let w : Window = record win { observed = win.observed ++ (t, some pid) ∷ [] } in
    let h : Graph = record g { windows = put ip w g.windows } in
    if_elim (λ k. tables k ≡ tables g) win.predicted (λ _. refl)
      (λ _. tables-maybe_predict cfg peers ip t now h)

note-IsBounded :
    (cfg : Config) (peers : Peers) (ip t : Text) (pid : Option Text) (now : ℕ) (win : Window)
    (g : Graph)
    → IsBounded cfg g
    → IsBounded cfg (note cfg peers ip t pid now win g)
note-IsBounded cfg peers ip t pid now win g h =
    same_tables cfg g (note cfg peers ip t pid now win g) (tables-note cfg peers ip t pid now win g)
      h

observe_in-IsBounded :
    (cfg : Config) (peers : Peers) (ip t : Text) (pid : Option Text) (now : ℕ) (o : Option Window)
    (g : Graph)
    → IsBounded cfg g
    → Yields (IsBounded cfg) (observe_in cfg peers ip t pid now o g)
unfolding IsBounded
observe_in-IsBounded cfg peers ip t pid now none g h =
    note-IsBounded cfg peers ip t pid now (fresh_window now) g h
observe_in-IsBounded cfg peers ip t pid now (some win) g h =
    if_elim (Yields (IsBounded cfg)) (ltb (win.opened + cfg.window) now)
      (λ _.
        Yields-then (IsBounded cfg) (IsBounded cfg) (close_and_learn cfg ip win now g)
          (λ k. some (note cfg peers ip t pid now (fresh_window now) k))
          (close_and_learn-IsBounded cfg ip win now g h.0)
          (λ k b. note-IsBounded cfg peers ip t pid now (fresh_window now) k b))
      (λ _. note-IsBounded cfg peers ip t pid now win g h)

pub observe-IsBounded :
    (cfg : Config) (peers : Peers) (ip t : Text) (pid : Option Text) (now : ℕ) (g : Graph)
    → IsBounded cfg g
    → Yields (IsBounded cfg) (observe cfg peers ip t pid now g)
unfolding observe
observe-IsBounded cfg peers ip t pid now g h =
    if_elim (Yields (IsBounded cfg)) (not cfg.enabled) (λ _. h)
      (λ _. observe_in-IsBounded cfg peers ip t pid now (lookup ip g.windows) g h)
