-- ===== src/Cluster/Synced.antt =====
-- Evicting edges never misses an entry, and the number of edges stays within the limit.
use auto_squid.Cluster.{
  CoEntry, Graph, Mark, and_then, drop_empty, drop_edge, close_and_learn, Config, enforce_cap,
  enforce, evict_first, evict_oldest_edge, Window, learn_window,
}
use auto_squid.Cluster.Edges.{has_edge, Agree, IsSynced, has_edge-put, learn_window-IsSynced}
use auto_squid.Base.{
  pair_eq, nat_eq, text_eq, option_eq, ◌≡◌, refl, Option, none, some, [], ◌∷◌, arith, if◌then◌else◌,
  if_elim, ◌==◌, Text, beq_refl, ℕ, zero, suc, ◌≤◌, ◌<◌, ltb,
}
use auto_squid.Dict.{Dict, lookup, remove, has_key, size}
use auto_squid.Dict.Laws.{lookup-remove, has_key-remove}

-- the code returns, and a graph with the property
abbrev pub Yields : (Graph → Type 0) → Option Graph → Type 0
Yields P none = ⊥
Yields P (some g) = P g

pub Yields-then :
    (P Q : Graph → Type 0) (o : Option Graph) (f : Graph → Option Graph)
    → Yields P o
    → ((g : Graph) → P g → Yields Q (f g))
    → Yields Q (and_then o f)
Yields-then P Q none f y each = absurd y
Yields-then P Q (some g) f y each = each g y

pub has_edge-drop_empty :
    (s src co : Text) (out : Dict Text CoEntry) (m : Dict Text (Dict Text CoEntry))
    → has_edge src co (drop_empty s out m)
      ≡ (if s == src then has_key co out else has_edge src co m)
unfolding has_key lookup
has_edge-drop_empty s src co [] m = ground (arith, lookup-remove s src m)
has_edge-drop_empty s src co (e ∷ out) m = has_edge-put s src co (e ∷ out) m

-- the edge that goes first is in the graph, and goes from there too
Dropped : Dict (Text × Text) Mark → Graph → Type 0
Dropped lru h = IsSynced h × (h.edge_lru ≡ lru)

dropped :
    (src co : Text) (lru : Dict (Text × Text) Mark) (out : Dict Text CoEntry) (g : Graph)
    → lookup src g.cooccur ≡ some out
    → Agree (((src, co), tt) ∷ lru) g.cooccur
    → Agree lru (drop_empty src (remove co out) g.cooccur)
unfolding has_key lookup
dropped src co lru out g at h = record {
  distinct = h.distinct.1;
  same = λ s c. ground (
    arith,
    at,
    h.same s c,
    h.distinct.0,
    has_edge-drop_empty src s c (remove co out) g.cooccur,
    has_key-remove co c out,
    text_eq.beq_iff src s,
    text_eq.beq_iff co c,
  );
}

drop_edge-Dropped :
    (src co : Text) (lru : Dict (Text × Text) Mark) (o : Option (Dict Text CoEntry)) (g : Graph)
    → lookup src g.cooccur ≡ o
    → Agree (((src, co), tt) ∷ lru) g.cooccur
    → Yields (Dropped lru) (drop_edge src co lru o g)
unfolding Dropped has_key lookup
drop_edge-Dropped src co lru none g at h =
    absurd (ground (arith, h.same src co, at, beq_refl src, beq_refl co))
drop_edge-Dropped src co lru (some out) g at h =
    if_elim (Yields (Dropped lru)) (has_key co out) (λ _. (dropped src co lru out g at h, refl))
      (λ missing. absurd (ground (arith, h.same src co, at, missing, beq_refl src, beq_refl co)))

shorter :
    (lru : Dict (Text × Text) Mark) (o : Option Graph)
    → Yields (Dropped lru) o
    → Yields (λ h. IsSynced h × (size h.edge_lru < suc (size lru))) o
unfolding Dropped
shorter lru none y = y
shorter lru (some h) y = (y.0, ground (arith, y.1))

evict_first-Dropped :
    (lru : Dict (Text × Text) Mark) (g : Graph)
    → Agree lru g.cooccur
    → 0 < size lru
    → Yields (λ h. IsSynced h × (size h.edge_lru < size lru)) (evict_first lru g)
evict_first-Dropped [] g h some_edge = absurd (omega (arith, some_edge))
evict_first-Dropped (((src, co), tt) ∷ lru) g h some_edge =
    shorter lru (drop_edge src co lru (lookup src g.cooccur) g)
      (drop_edge-Dropped src co lru (lookup src g.cooccur) g refl h)

-- the tables agree and the limit holds
unfoldable pub IsBounded : Config → Graph → Type 0
IsBounded cfg g = IsSynced g × (size g.edge_lru ≤ cfg.max_entries)

enforce-IsBounded :
    (fuel : ℕ) (cfg : Config) (g : Graph)
    → IsSynced g
    → size g.edge_lru ≤ fuel
    → Yields (IsBounded cfg) (enforce fuel cfg g)
unfolding enforce evict_oldest_edge IsBounded
enforce-IsBounded zero cfg g h enough = (h, omega (arith, enough))
enforce-IsBounded (suc fuel) cfg g h enough =
    if_elim (Yields (IsBounded cfg)) (ltb cfg.max_entries (size g.edge_lru))
      (λ over.
        Yields-then (λ k. IsSynced k × (size k.edge_lru < size g.edge_lru)) (IsBounded cfg)
          (evict_oldest_edge g) (λ k. enforce fuel cfg k)
          (evict_first-Dropped g.edge_lru g h (ground (arith, over)))
          (λ k y. enforce-IsBounded fuel cfg k y.0 (omega (arith, y.1, enough))))
      (λ fits. (h, ground (arith, fits)))

pub enforce_cap-IsBounded :
    (cfg : Config) (g : Graph) → IsSynced g → Yields (IsBounded cfg) (enforce_cap cfg g)
unfolding enforce_cap
enforce_cap-IsBounded cfg g h = enforce-IsBounded (size g.edge_lru) cfg g h (omega arith)

pub close_and_learn-IsBounded :
    (cfg : Config) (ip : Text) (win : Window) (now : ℕ) (g : Graph)
    → IsSynced g
    → Yields (IsBounded cfg) (close_and_learn cfg ip win now g)
unfolding close_and_learn
close_and_learn-IsBounded cfg ip win now g h =
    let k : Graph = record g { windows = remove ip g.windows } in
    enforce_cap-IsBounded cfg (learn_window cfg win now k) (learn_window-IsSynced cfg win now k h)
