-- ===== src/Cluster/Sweeping.antt =====
-- Sweeping the graph, and any sequence of requests and sweeps.
use auto_squid.Cluster.{
  Window, Config, Peers, Graph, row, and_then, drop_empty, enforce_cap, close_and_learn,
}
use auto_squid.Cluster.Observing.{
  observe, close_stale, stale_of, forget_edges, forget_stale, prune, reset,
}
use auto_squid.Cluster.Edges.{Agree-nil, Agree, IsSynced, has_edge-put}
use auto_squid.Cluster.Synced.{
  Yields, Yields-then, has_edge-drop_empty, IsBounded, enforce_cap-IsBounded,
  close_and_learn-IsBounded,
}
use auto_squid.Cluster.Histories.{observe-IsBounded}
use auto_squid.Base.{
  ℕ, pair_eq, nat_eq, text_eq, option_eq, ◌+◌, not, ◌&&◌, Option, some, List, [], ◌∷◌, arith, ltb,
  leb, if_elim, Text, length,
}
use auto_squid.Dict.{Dict, keys, keep, lookup, put, remove}
use auto_squid.Dict.Laws.{Distinct-remove, has_key-remove}

close_stale-IsBounded :
    (cfg : Config) (now : ℕ) (ws : Dict Text Window) (g : Graph)
    → IsBounded cfg g
    → Yields (IsBounded cfg) (close_stale cfg now ws g)
unfolding close_stale IsBounded
close_stale-IsBounded cfg now [] g h = h
close_stale-IsBounded cfg now ((ip, win) ∷ ws) g h =
    if_elim (Yields (IsBounded cfg))
      (ltb (win.opened + cfg.window) now && ltb 0 (length win.observed))
      (λ _.
        Yields-then (IsBounded cfg) (IsBounded cfg) (close_and_learn cfg ip win now g)
          (λ k. close_stale cfg now ws k) (close_and_learn-IsBounded cfg ip win now g h.0)
          (λ k b. close_stale-IsBounded cfg now ws k b))
      (λ _. close_stale-IsBounded cfg now ws g h)

forget_one :
    (s c : Text) (g : Graph)
    → IsSynced g
    → Agree (remove (s, c) g.edge_lru) (put s (remove c (row (lookup s g.cooccur))) g.cooccur)
forget_one s c g h = record {
  distinct = Distinct-remove (s, c) g.edge_lru h.distinct;
  same = λ src co. ground (
    arith,
    has_key-remove (s, c) (src, co) g.edge_lru,
    has_edge-put s src co (remove c (row (lookup s g.cooccur))) g.cooccur,
    has_key-remove c co (row (lookup s g.cooccur)),
    h.same src co,
    text_eq.beq_iff s src,
  );
}

forget_edges-IsSynced :
    (src : Text) (cos : List Text) (g : Graph) → IsSynced g → IsSynced (forget_edges src cos g)
unfolding forget_edges
forget_edges-IsSynced src [] g h = h
forget_edges-IsSynced src (co ∷ cos) g h =
    forget_edges-IsSynced src cos
      (record g {
        cooccur = put src (remove co (row (lookup src g.cooccur))) g.cooccur;
        edge_lru = remove (src, co) g.edge_lru;
      })
      (forget_one src co g h)

settle_row :
    (s : Text) (g : Graph)
    → IsSynced g
    → Agree g.edge_lru (drop_empty s (row (lookup s g.cooccur)) g.cooccur)
settle_row s g h = record {
  distinct = h.distinct;
  same = λ src co. ground (
    arith,
    has_edge-drop_empty s src co (row (lookup s g.cooccur)) g.cooccur,
    h.same src co,
    text_eq.beq_iff s src,
  );
}

forget_stale-IsSynced :
    (cfg : Config) (now : ℕ) (srcs : List Text) (g : Graph)
    → IsSynced g
    → IsSynced (forget_stale cfg now srcs g)
unfolding forget_stale
forget_stale-IsSynced cfg now [] g h = h
forget_stale-IsSynced cfg now (src ∷ srcs) g h =
    let cos = stale_of cfg now (row (lookup src g.cooccur)) in
    let k = forget_edges src cos g in
    forget_stale-IsSynced cfg now srcs
      (record k { cooccur = drop_empty src (row (lookup src k.cooccur)) k.cooccur })
      (settle_row src k (forget_edges-IsSynced src cos g h))

prune-IsBounded :
    (cfg : Config) (now : ℕ) (g : Graph)
    → IsBounded cfg g
    → Yields (IsBounded cfg) (prune cfg now g)
unfolding prune IsBounded
prune-IsBounded cfg now g h =
    if_elim (Yields (IsBounded cfg)) (not cfg.enabled) (λ _. h)
      (λ _.
        Yields-then (IsBounded cfg) (IsBounded cfg) (close_stale cfg now g.windows g)
          (λ k.
            let f = forget_stale cfg now (keys k.cooccur) k in
            enforce_cap cfg (record f {
              last_predict = keep (λ pair last. not (leb (last + cfg.throttle) now)) f.last_predict;
            }))
          (close_stale-IsBounded cfg now g.windows g h)
          (λ k b.
            let f = forget_stale cfg now (keys k.cooccur) k in
            enforce_cap-IsBounded cfg
              (record f {
                last_predict =
                    keep (λ pair last. not (leb (last + cfg.throttle) now)) f.last_predict;
              })
              (forget_stale-IsSynced cfg now (keys k.cooccur) k b.0)))

pub data Event : Type 0 where
  asked : Peers → Text → Text → Option Text → ℕ → Event
  swept : ℕ → Event
  cleared : Event

unfoldable pub handle : Config → Event → Graph → Option Graph
handle cfg (asked peers ip target pid now) g = observe cfg peers ip target pid now g
handle cfg (swept now) g = prune cfg now g
handle cfg cleared g = some (reset g)

unfoldable pub replay : Config → List Event → Graph → Option Graph
unfolding handle
replay cfg [] g = some g
replay cfg (e ∷ es) g = and_then (handle cfg e g) (λ h. replay cfg es h)

handle-IsBounded :
    (cfg : Config) (e : Event) (g : Graph)
    → IsBounded cfg g
    → Yields (IsBounded cfg) (handle cfg e g)
unfolding handle reset IsBounded
handle-IsBounded cfg (asked peers ip target pid now) g h =
    observe-IsBounded cfg peers ip target pid now g h
handle-IsBounded cfg (swept now) g h = prune-IsBounded cfg now g h
handle-IsBounded cfg cleared g h = (Agree-nil, omega arith)

-- From a graph whose two tables of edges agree, within the limit on edges, any sequence of requests,
-- sweeps and resets returns without a KeyError in the eviction, and leaves such a graph.
pub replay-IsBounded :
    (cfg : Config) (es : List Event) (g : Graph)
    → IsBounded cfg g
    → Yields (IsBounded cfg) (replay cfg es g)
unfolding replay
replay-IsBounded cfg [] g h = h
replay-IsBounded cfg (e ∷ es) g h =
    Yields-then (IsBounded cfg) (IsBounded cfg) (handle cfg e g) (λ k. replay cfg es k)
      (handle-IsBounded cfg e g h) (λ k b. replay-IsBounded cfg es k b)
