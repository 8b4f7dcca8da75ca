-- ===== src/Cluster/Predictions.antt =====
-- How much a prediction launches.
use auto_squid.Cluster.{CoEntry, Window, Config, Peers, Launch, Graph}
use auto_squid.Cluster.Predicting.{
  fire_all, launch, predict_one, predict_each, resolve, resolve_top, ranked, count_prediction,
  predict_row, predict_window, maybe_predict, observed_targets, last_time, next_proxy, usable,
}
use native.Mathlib.Nat.{mul-le-mul_right}
use auto_squid.Base.{
  ℕ, pair_eq, nat_eq, text_eq, option_eq, suc, ◌+◌, ◌-◌, ◌*◌, ◌≤◌, ◌<◌, ◌≡◌, refl, ap, ◌∙◌, Bool,
  true, false, not, ◌||◌, Option, none, some, List, [], ◌∷◌, arith, ltb, if_elim, length-take-le,
  Text, length, take, contains,
}
use auto_squid.Dict.{Dict, lookup, put}
use auto_squid.Dict.Laws.{lookup-nil}

next_proxy-length :
    (n : ℕ) (o : Option (Text × ℕ)) (fewer rest : List (Text × ℕ))
    → 1 ≤ n
    → (1 ≤ n - 1 → length fewer ≤ n - 1)
    → length rest ≤ n
    → length (next_proxy n o fewer rest) ≤ n
next_proxy-length n none fewer rest one a b = b
next_proxy-length n (some p) fewer rest one a b = ground (arith, one, a, b)

resolve-length :
    (peers : Peers) (n : ℕ) (xs : List ((ℕ × ℕ) × Text)) → 1 ≤ n → length (resolve peers n xs) ≤ n
unfolding resolve
resolve-length peers n [] one = omega arith
resolve-length peers n ((r, pid) ∷ xs) one =
    next_proxy-length n (usable peers pid) (resolve peers (n - 1) xs) (resolve peers n xs) one
      (λ left. resolve-length peers (n - 1) xs left) (resolve-length peers n xs one)

fire_all-launches :
    (cfg : Config) (co : Text) (ps : List (Text × ℕ)) (g : Graph)
    → length (fire_all cfg co ps g).launches ≤ length g.launches + length ps
unfolding fire_all
fire_all-launches cfg co [] g = omega arith
fire_all-launches cfg co ((host, port) ∷ ps) g =
    let l : Launch = record { host = host; port = port; target = co } in
    let fired : Graph = record g {
      prewarm_spawned = g.prewarm_spawned + 1;
      launches = l ∷ g.launches;
    } in
    if_elim (λ h. length (fire_all cfg co ps h).launches ≤ length g.launches + suc (length ps))
      cfg.can_spawn (λ _. omega (arith, fire_all-launches cfg co ps fired))
      (λ _. omega (arith, fire_all-launches cfg co ps g))

launch-launches :
    (cfg : Config) (pair : Text × Text) (now : ℕ) (ps : List (Text × ℕ)) (r : Bool × Graph)
    → length (launch cfg pair now ps r).1.launches ≤ length r.1.launches + length ps
launch-launches cfg pair now [] r = omega arith
launch-launches cfg pair now (p ∷ ps) (fired, g) = fire_all-launches cfg pair.1 (p ∷ ps) (record g {
  last_predict = put pair now g.last_predict;
  bucket_spawns = g.bucket_spawns + length (p ∷ ps);
})

predict_one-launches :
    (cfg : Config) (peers : Peers) (t : Text) (seen : List Text) (now : ℕ) (co : Text)
    (o : Option CoEntry) (r : Bool × Graph)
    → 1 ≤ cfg.fanout
    → length (predict_one cfg peers t seen now co o r).1.launches ≤ length r.1.launches + cfg.fanout
unfolding predict_one resolve_top
predict_one-launches cfg peers t seen now co none r one = omega arith
predict_one-launches cfg peers t seen now co (some e) r one =
    let ps = resolve_top peers e.probe_pids cfg.fanout in
    if_elim (λ (q : Bool × Graph). length q.1.launches ≤ length r.1.launches + cfg.fanout)
      (contains co seen
        || ltb e.hits cfg.min_support
        || ltb now (last_time (lookup (t, co) r.1.last_predict) + cfg.throttle))
      (λ _. omega arith)
      (λ _. omega (
        arith,
        launch-launches cfg (t, co) now ps r,
        resolve-length peers cfg.fanout (ranked (λ n. (n, 0)) e.probe_pids) one,
      ))

predict_each-launches :
    (cfg : Config) (peers : Peers) (t : Text) (seen : List Text) (now : ℕ) (out : Dict Text CoEntry)
    (xs : List ((ℕ × ℕ) × Text)) (r : Bool × Graph)
    → 1 ≤ cfg.fanout
    → length (predict_each cfg peers t seen now out xs r).1.launches
      ≤ length r.1.launches + length xs * cfg.fanout
unfolding predict_each
predict_each-launches cfg peers t seen now out [] r one = omega arith
predict_each-launches cfg peers t seen now out ((k, co) ∷ xs) r one =
    let q = predict_one cfg peers t seen now co (lookup co out) r in
    grind (
      arith,
      predict_each-launches cfg peers t seen now out xs q one,
      predict_one-launches cfg peers t seen now co (lookup co out) r one,
    )

count_prediction-launches : (r : Bool × Graph) → (count_prediction r).launches ≡ r.1.launches
count_prediction-launches (false, g) = refl
count_prediction-launches (true, g) = refl

predict_row-launches :
    (cfg : Config) (peers : Peers) (ip t : Text) (win : Window) (now : ℕ)
    (o : Option (Dict Text CoEntry)) (g : Graph)
    → 1 ≤ cfg.fanout
    → length (predict_row cfg peers ip t win now o g).launches
      ≤ length g.launches + cfg.topk * cfg.fanout
predict_row-launches cfg peers ip t win now none g one = omega arith
predict_row-launches cfg peers ip t win now (some out) g one =
    let all = ranked (λ (e : CoEntry). (e.hits, e.last_seen)) out in
    let h : Graph = record g { windows = put ip (record win { predicted = true }) g.windows } in
    let seen = observed_targets win.observed in
    let r = predict_each cfg peers t seen now out (take cfg.topk all) (false, h) in
    omega (
      arith,
      ap length (count_prediction-launches r),
      predict_each-launches cfg peers t seen now out (take cfg.topk all) (false, h) one,
      mul-le-mul_right cfg.fanout (length-take-le cfg.topk all),
    )

predict_window-launches :
    (cfg : Config) (peers : Peers) (ip t : Text) (now : ℕ) (o : Option Window) (g : Graph)
    → 1 ≤ cfg.fanout
    → length (predict_window cfg peers ip t now o g).launches
      ≤ length g.launches + cfg.topk * cfg.fanout
predict_window-launches cfg peers ip t now none g one = omega arith
predict_window-launches cfg peers ip t now (some win) g one =
    if_elim (λ (h : Graph). length h.launches ≤ length g.launches + cfg.topk * cfg.fanout)
      win.predicted (λ _. omega arith)
      (λ _. predict_row-launches cfg peers ip t win now (lookup t g.cooccur) g one)

-- One prediction launches at most `topk` times `fanout` connections, however large the row of the
-- target and the histograms of winners are, when the fan-out is at least one.
pub maybe_predict-launches :
    (cfg : Config) (peers : Peers) (ip target : Text) (now : ℕ) (g : Graph)
    → 1 ≤ cfg.fanout
    → length (maybe_predict cfg peers ip target now g).launches
      ≤ length g.launches + cfg.topk * cfg.fanout
unfolding maybe_predict
maybe_predict-launches cfg peers ip target now g one =
    if_elim (λ (h : Graph). length h.launches ≤ length g.launches + cfg.topk * cfg.fanout)
      (not cfg.enabled) (λ _. omega arith)
      (λ _. predict_window-launches cfg peers ip target now (lookup ip g.windows) g one)

early_one :
    (cfg : Config) (peers : Peers) (t : Text) (seen : List Text) (now : ℕ) (co : Text)
    (o : Option CoEntry) (r : Bool × Graph)
    → r.1.last_predict ≡ []
    → now < cfg.throttle
    → predict_one cfg peers t seen now co o r ≡ r
unfolding predict_one
early_one cfg peers t seen now co none r empty early = refl
early_one cfg peers t seen now co (some e) r empty early =
    let miss : lookup (t, co) r.1.last_predict ≡ none =
      ap (lookup (t, co)) empty ∙ lookup-nil (t, co) in
    if_elim (λ q. q ≡ r)
      (contains co seen
        || ltb e.hits cfg.min_support
        || ltb now (last_time (lookup (t, co) r.1.last_predict) + cfg.throttle))
      (λ _. refl) (λ no_throttle. absurd (ground (arith, no_throttle, miss, early)))

early_each :
    (cfg : Config) (peers : Peers) (t : Text) (seen : List Text) (now : ℕ) (out : Dict Text CoEntry)
    (xs : List ((ℕ × ℕ) × Text)) (r : Bool × Graph)
    → r.1.last_predict ≡ []
    → now < cfg.throttle
    → predict_each cfg peers t seen now out xs r ≡ r
unfolding predict_each
early_each cfg peers t seen now out [] r empty early = refl
early_each cfg peers t seen now out ((k, co) ∷ xs) r empty early =
    ap (λ q. predict_each cfg peers t seen now out xs q)
      (early_one cfg peers t seen now co (lookup co out) r empty early)
    ∙ early_each cfg peers t seen now out xs r empty early

early_row :
    (cfg : Config) (peers : Peers) (ip t : Text) (win : Window) (now : ℕ)
    (o : Option (Dict Text CoEntry)) (g : Graph)
    → g.last_predict ≡ []
    → now < cfg.throttle
    → (predict_row cfg peers ip t win now o g).launches ≡ g.launches
early_row cfg peers ip t win now none g empty early = refl
early_row cfg peers ip t win now (some out) g empty early =
    let top = take cfg.topk (ranked (λ (e : CoEntry). (e.hits, e.last_seen)) out) in
    let h : Graph = record g { windows = put ip (record win { predicted = true }) g.windows } in
    ap (λ r. (count_prediction r).launches)
      (early_each cfg peers t (observed_targets win.observed) now out top (false, h) empty early)

early_window :
    (cfg : Config) (peers : Peers) (ip t : Text) (now : ℕ) (o : Option Window) (g : Graph)
    → g.last_predict ≡ []
    → now < cfg.throttle
    → (predict_window cfg peers ip t now o g).launches ≡ g.launches
early_window cfg peers ip t now none g empty early = refl
early_window cfg peers ip t now (some win) g empty early =
    if_elim (λ (h : Graph). h.launches ≡ g.launches) win.predicted (λ _. refl)
      (λ _. early_row cfg peers ip t win now (lookup t g.cooccur) g empty early)

-- While the monotonic clock is below the throttle, a graph that has not predicted anything yet
-- launches nothing, however well a target is supported.
pub maybe_predict_early :
    (cfg : Config) (peers : Peers) (ip target : Text) (now : ℕ) (g : Graph)
    → g.last_predict ≡ []
    → now < cfg.throttle
    → (maybe_predict cfg peers ip target now g).launches ≡ g.launches
unfolding maybe_predict
maybe_predict_early cfg peers ip target now g empty early =
    if_elim (λ (h : Graph). h.launches ≡ g.launches) (not cfg.enabled) (λ _. refl)
      (λ _. early_window cfg peers ip target now (lookup ip g.windows) g empty early)
