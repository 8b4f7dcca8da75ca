-- ===== src/Cluster/Observing.antt =====
-- `observe`, `prune` and `reset`.
use auto_squid.Cluster.{
  CoEntry, Window, Config, Peers, Graph, row, and_then, enforce_cap, close_and_learn, drop_empty,
}
use auto_squid.Cluster.Predicting.{maybe_predict}
use auto_squid.Base.{
  pair_eq, ℕ, ◌+◌, false, not, ◌&&◌, Option, none, some, List, [], ◌∷◌, ◌++◌, ltb, leb,
  if◌then◌else◌, nat_eq, Text, text_eq, length,
}
use auto_squid.Dict.{Dict, keys, keep, lookup, put, remove}

abbrev pub fresh_window : ℕ → Window
fresh_window now = record { opened = now; predicted = false; observed = [] }

abbrev pub after_note : Config → Peers → Text → Text → Option Text → ℕ → Window → Graph → Graph
after_note cfg peers ip target none now win g = g
after_note cfg peers ip target (some pid) now win g =
    if win.predicted then g else maybe_predict cfg peers ip target now g

-- the request is noted in the window, and may start a prediction
abbrev pub note : Config → Peers → Text → Text → Option Text → ℕ → Window → Graph → Graph
note cfg peers ip target pid now win g =
    let w : Window = record win { observed = win.observed ++ (target, pid) ∷ [] } in
    after_note cfg peers ip target pid now w (record g { windows = put ip w g.windows })

abbrev pub observe_in :
    Config → Peers → Text → Text → Option Text → ℕ → Option Window → Graph → Option Graph
observe_in cfg peers ip target pid now none g =
    some (note cfg peers ip target pid now (fresh_window now) g)
observe_in cfg peers ip target pid now (some win) g =
    if ltb (win.opened + cfg.window) now
    then and_then (close_and_learn cfg ip win now g)
        (λ h. some (note cfg peers ip target pid now (fresh_window now) h))
    else some (note cfg peers ip target pid now win g)

-- `observe`
unfoldable pub observe : Config → Peers → Text → Text → Option Text → ℕ → Graph → Option Graph
unfolding close_and_learn maybe_predict
observe cfg peers ip target pid now g =
    if not cfg.enabled
    then some g
    else observe_in cfg peers ip target pid now (lookup ip g.windows) g

-- the first loop of `prune`
unfoldable pub close_stale : Config → ℕ → Dict Text Window → Graph → Option Graph
unfolding close_and_learn
close_stale cfg now [] g = some g
close_stale cfg now ((ip, win) ∷ ws) g =
    if ltb (win.opened + cfg.window) now && ltb 0 (length win.observed)
    then and_then (close_and_learn cfg ip win now g) (λ h. close_stale cfg now ws h)
    else close_stale cfg now ws g

-- the edges of a source that were not seen for the time to live
unfoldable pub stale_of : Config → ℕ → Dict Text CoEntry → List Text
stale_of cfg now [] = []
stale_of cfg now ((co, e) ∷ out) =
    let rest = stale_of cfg now out in
    if ltb (e.last_seen + cfg.graph_ttl) now then co ∷ rest else rest

unfoldable pub forget_edges : Text → List Text → Graph → Graph
forget_edges src [] g = g
forget_edges src (co ∷ cos) g = forget_edges src cos (record g {
  cooccur = put src (remove co (row (lookup src g.cooccur))) g.cooccur;
  edge_lru = remove (src, co) g.edge_lru;
})

-- the second loop of `prune`
unfoldable pub forget_stale : Config → ℕ → List Text → Graph → Graph
unfolding stale_of forget_edges
forget_stale cfg now [] g = g
forget_stale cfg now (src ∷ srcs) g =
    let h = forget_edges src (stale_of cfg now (row (lookup src g.cooccur))) g in
    forget_stale cfg now srcs
      (record h { cooccur = drop_empty src (row (lookup src h.cooccur)) h.cooccur })

-- `prune`
unfoldable pub prune : Config → ℕ → Graph → Option Graph
unfolding close_stale forget_stale enforce_cap
prune cfg now g =
    if not cfg.enabled
    then some g
    else and_then (close_stale cfg now g.windows g) (λ h.
      let k = forget_stale cfg now (keys h.cooccur) h in
      enforce_cap cfg (record k {
        last_predict = keep (λ pair last. not (leb (last + cfg.throttle) now)) k.last_predict;
      }))

-- `reset`
unfoldable pub reset : Graph → Graph
reset g = record g { windows = []; cooccur = []; edge_lru = []; last_predict = [] }
