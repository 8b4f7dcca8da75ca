-- ===== src/Cluster/Predicting.antt =====
-- `maybe_predict` with `_resolve_top` and `_fire`.
use auto_squid.Cluster.{CoEntry, Window, Config, Peers, Graph}
use auto_squid.Base.{
  ℕ, ◌+◌, ◌-◌, Bool, true, false, not, ◌&&◌, ◌||◌, Option, none, some, List, [], ◌∷◌, ltb, leb,
  if◌then◌else◌, ◌==◌, nat_eq, Text, text_eq, pair_eq, option_eq, length, take, contains, text,
}
use auto_squid.Dict.{Dict, lookup, put}

-- a list sorted by a rank, the highest first; the sort is stable
unfoldable pub insert_top : (ℕ × ℕ) → Text → List ((ℕ × ℕ) × Text) → List ((ℕ × ℕ) × Text)
insert_top r k [] = (r, k) ∷ []
insert_top r k ((s, j) ∷ xs) =
    let rest = insert_top r k xs in
    if ltb r.0 s.0 || r.0 == s.0 && ltb r.1 s.1 then (s, j) ∷ rest else (r, k) ∷ (s, j) ∷ xs

unfoldable pub ranked {ℓ} : {V : Type ℓ} → (V → ℕ × ℕ) → Dict Text V → List ((ℕ × ℕ) × Text)
unfolding insert_top
ranked rank [] = []
ranked rank ((k, v) ∷ d) = insert_top (rank v) k (ranked rank d)

abbrev pub usable : Peers → Text → Option (Text × ℕ)
usable peers pid =
    if pid == text "local" || peers.is_circuit_open pid then none else peers.proxy pid

abbrev pub next_proxy : ℕ → Option (Text × ℕ) → List (Text × ℕ) → List (Text × ℕ) → List (Text × ℕ)
next_proxy n none fewer rest = rest
next_proxy n (some p) fewer rest = if leb n 1 then p ∷ [] else p ∷ fewer

-- the loop of `_resolve_top`: how many proxies are still wanted, and the ids by their counts
unfoldable pub resolve : Peers → ℕ → List ((ℕ × ℕ) × Text) → List (Text × ℕ)
resolve peers n [] = []
resolve peers n ((r, pid) ∷ xs) =
    let fewer = resolve peers (n - 1) xs in
    let rest = resolve peers n xs in next_proxy n (usable peers pid) fewer rest

-- `_resolve_top`
unfoldable pub resolve_top : Peers → Dict Text ℕ → ℕ → List (Text × ℕ)
unfolding ranked resolve
resolve_top peers hist fanout = resolve peers fanout (ranked (λ n. (n, 0)) hist)

-- `_fire` for each proxy
unfoldable pub fire_all : Config → Text → List (Text × ℕ) → Graph → Graph
fire_all cfg co [] g = g
fire_all cfg co ((host, port) ∷ ps) g = fire_all cfg co ps (
    if cfg.can_spawn
    then record g {
      prewarm_spawned = g.prewarm_spawned + 1;
      launches = record { host = host; port = port; target = co } ∷ g.launches;
    }
    else g)

-- `d.get(pair, 0.0)`
abbrev pub last_time : Option ℕ → ℕ
last_time none = 0
last_time (some t) = t

-- a target that is predicted, if some proxy is left for it
abbrev pub launch : Config → Text × Text → ℕ → List (Text × ℕ) → Bool × Graph → Bool × Graph
launch cfg pair now [] r = r
launch cfg pair now (p ∷ ps) (fired, g) = (
  true,
  fire_all cfg pair.1 (p ∷ ps) (record g {
    last_predict = put pair now g.last_predict;
    bucket_spawns = g.bucket_spawns + length (p ∷ ps);
  }),
)

-- one round of the loop of `maybe_predict`
unfoldable pub predict_one :
    Config → Peers → Text → List Text → ℕ → Text → Option CoEntry → Bool × Graph → Bool × Graph
unfolding resolve_top fire_all
predict_one cfg peers target observed now co none r = r
predict_one cfg peers target observed now co (some e) r =
    if contains co observed
      || ltb e.hits cfg.min_support
      || ltb now (last_time (lookup (target, co) r.1.last_predict) + cfg.throttle)
    then r
    else launch cfg (target, co) now (resolve_top peers e.probe_pids cfg.fanout) r

unfoldable pub predict_each :
    Config
    → Peers
    → Text
    → List Text
    → ℕ
    → Dict Text CoEntry
    → List ((ℕ × ℕ) × Text)
    → Bool × Graph
    → Bool × Graph
unfolding predict_one
predict_each cfg peers target observed now out [] r = r
predict_each cfg peers target observed now out ((k, co) ∷ xs) r =
    predict_each cfg peers target observed now out xs
      (predict_one cfg peers target observed now co (lookup co out) r)

abbrev pub observed_targets : List (Text × Option Text) → List Text
observed_targets [] = []
observed_targets ((t, pid) ∷ obs) = t ∷ observed_targets obs

abbrev pub count_prediction : Bool × Graph → Graph
count_prediction (false, g) = g
count_prediction (true, g) = record g { predictions = g.predictions + 1 }

abbrev pub predict_row :
    Config → Peers → Text → Text → Window → ℕ → Option (Dict Text CoEntry) → Graph → Graph
predict_row cfg peers ip target win now none g = g
predict_row cfg peers ip target win now (some out) g = count_prediction (
    predict_each cfg peers target (observed_targets win.observed) now out
      (take cfg.topk (ranked (λ (e : CoEntry). (e.hits, e.last_seen)) out))
      (false, record g { windows = put ip (record win { predicted = true }) g.windows }))

abbrev pub predict_window : Config → Peers → Text → Text → ℕ → Option Window → Graph → Graph
predict_window cfg peers ip target now none g = g
predict_window cfg peers ip target now (some win) g =
    if win.predicted then g else predict_row cfg peers ip target win now (lookup target g.cooccur) g

-- `maybe_predict`
unfoldable pub maybe_predict : Config → Peers → Text → Text → ℕ → Graph → Graph
unfolding ranked predict_each
maybe_predict cfg peers ip target now g =
    if not cfg.enabled then g else predict_window cfg peers ip target now (lookup ip g.windows) g
