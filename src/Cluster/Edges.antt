-- ===== src/Cluster/Edges.antt =====
-- The two tables of edges agree, whatever is learned.
use auto_squid.Cluster.{
  CoEntry, Window, Config, Graph, Mark, row, bump_entry, bump_edge, learn_pairs, learn_all,
  learn_window, pids_of, seen_targets,
}
use auto_squid.Base.{
  ℕ, pair_eq, nat_eq, text_eq, option_eq, ◌≡◌, refl, Bool, ◌&&◌, Option, List, [], ◌∷◌, arith, ltb,
  if◌then◌else◌, if_elim, ◌==◌, Text, length,
}
use auto_squid.Dict.{Dict, lookup, put, has_key, Distinct}
use auto_squid.Dict.Laws.{
  lookup-put, Distinct-put, Distinct-move_to_end, has_key-put, has_key-move_to_end,
}

-- whether the graph has an edge
abbrev pub has_edge : Text → Text → Dict Text (Dict Text CoEntry) → Bool
has_edge src co m = has_key co (row (lookup src m))

pub record Agree (lru : Dict (Text × Text) Mark) (m : Dict Text (Dict Text CoEntry)) : Type 0 where
  pub distinct : Distinct lru
  pub same : (src co : Text) → has_key (src, co) lru ≡ has_edge src co m

abbrev pub IsSynced : Graph → Type 0
IsSynced g = Agree g.edge_lru g.cooccur

pub Agree-nil : Agree [] []
unfolding has_key lookup
Agree-nil = record { distinct = tt; same = λ src co. refl }

pub has_edge-put :
    (s src co : Text) (out : Dict Text CoEntry) (m : Dict Text (Dict Text CoEntry))
    → has_edge src co (put s out m) ≡ (if s == src then has_key co out else has_edge src co m)
unfolding has_key
has_edge-put s src co out m = ground (arith, lookup-put s src out m)

pub pair_beq_lem : (a b s c : Text) → (pair_eq.beq (a, b) (s, c)) ≡ (a == s && b == c)
pair_beq_lem a b s c = refl

bump_edge-IsSynced :
    (cfg : Config) (s c : Text) (pid : Option Text) (now : ℕ) (g : Graph)
    → IsSynced g
    → IsSynced (bump_edge cfg s c pid now g)
unfolding bump_edge
bump_edge-IsSynced cfg s c pid now g h =
    let out = row (lookup s g.cooccur) in
    let e = bump_entry cfg pid now (lookup c out) in
    record {
      distinct =
          Distinct-move_to_end (s, c) (put (s, c) tt g.edge_lru)
            (Distinct-put (s, c) tt g.edge_lru h.distinct);
      same = λ src co. ground (
        arith,
        has_key-move_to_end (s, c) (src, co) (put (s, c) tt g.edge_lru),
        has_key-put (s, c) (src, co) tt g.edge_lru,
        has_edge-put s src co (put c e out) g.cooccur,
        has_key-put c co e out,
        h.same src co,
        text_eq.beq_iff s src,
      );
    }

learn_pairs-IsSynced :
    (cfg : Config) (pids : Dict Text Text) (now : ℕ) (a : Text) (bs : List Text) (g : Graph)
    → IsSynced g
    → IsSynced (learn_pairs cfg pids now a bs g)
unfolding learn_pairs
learn_pairs-IsSynced cfg pids now a [] g h = h
learn_pairs-IsSynced cfg pids now a (b ∷ bs) g h =
    let k = bump_edge cfg a b (lookup b pids) now g in
    learn_pairs-IsSynced cfg pids now a bs (bump_edge cfg b a (lookup a pids) now k) (
      bump_edge-IsSynced cfg b a (lookup a pids) now k
        (bump_edge-IsSynced cfg a b (lookup b pids) now g h))

learn_all-IsSynced :
    (cfg : Config) (pids : Dict Text Text) (now : ℕ) (seen : List Text) (g : Graph)
    → IsSynced g
    → IsSynced (learn_all cfg pids now seen g)
unfolding learn_all
learn_all-IsSynced cfg pids now [] g h = h
learn_all-IsSynced cfg pids now (a ∷ more) g h =
    learn_all-IsSynced cfg pids now more (learn_pairs cfg pids now a more g)
      (learn_pairs-IsSynced cfg pids now a more g h)

pub learn_window-IsSynced :
    (cfg : Config) (win : Window) (now : ℕ) (g : Graph)
    → IsSynced g
    → IsSynced (learn_window cfg win now g)
unfolding learn_window
learn_window-IsSynced cfg win now g h =
    let seen = seen_targets win.observed [] in
    if_elim IsSynced (ltb (length seen) 2) (λ _. h)
      (λ _. learn_all-IsSynced cfg (pids_of win.observed []) now seen g h)
