-- ===== src/Cluster.antt =====
-- The graph of targets that are asked for together (`ClusterGraph` of auto_squid/cluster.py). The
-- entry of an edge is one object that both tables of the code refer to; here the graph holds it and
-- the order of use holds the keys. Counts of wins are in millionths, and the power
-- `0.5 ** (elapsed / probe_decay_sec)`, in millionths too, is a function of the configuration. A
-- KeyError is `none`. The calls of `prewarm_spawn` are kept as a list, the last one first.
pub mod Predicting
pub mod Observing
pub mod Edges
pub mod Synced
pub mod Histories
pub mod Sweeping
pub mod Predictions
use auto_squid.Base.{
  ℕ, zero, suc, ◌+◌, ◌-◌, ◌*◌, ◌/◌, Bool, true, false, not, ◌&&◌, ◌||◌, Option, none, some, List,
  [], ◌∷◌, ◌++◌, ltb, leb, if◌then◌else◌, ◌==◌, nat_eq, Text, text_eq, pair_eq, option_eq, length,
  take, contains, set_add, text,
}
use auto_squid.Dict.{Dict, size, keys, keep, lookup, put, remove, move_to_end, has_key}
use auto_squid.Dict.Laws.{kept}

pub record CoEntry : Type 0 where
  pub hits : ℕ
  pub probe_pids : Dict Text ℕ
  pub probe_pid : Option Text
  pub last_seen : ℕ

pub record Window : Type 0 where
  pub opened : ℕ
  pub predicted : Bool
  pub observed : List (Text × Option Text)

pub record Config : Type 0 where
  pub enabled : Bool
  pub window : ℕ
  pub topk : ℕ
  pub min_support : ℕ
  pub graph_ttl : ℕ
  pub max_entries : ℕ
  pub throttle : ℕ
  pub fanout : ℕ
  pub half_power : ℕ → ℕ
  pub can_spawn : Bool

-- what the proxy store and the selector answer during a call
pub record Peers : Type 0 where
  pub is_circuit_open : Text → Bool
  pub proxy : Text → Option (Text × ℕ)

pub record Launch : Type 0 where
  pub host : Text
  pub port : ℕ
  pub target : Text

-- the order of use stores nothing with a key
abbrev pub Mark : Type 0
Mark = Unit

pub record Graph : Type 0 where
  pub windows : Dict Text Window
  pub cooccur : Dict Text (Dict Text CoEntry)
  pub edge_lru : Dict (Text × Text) Mark
  pub last_predict : Dict (Text × Text) ℕ
  pub windows_learned : ℕ
  pub predictions : ℕ
  pub prewarm_spawned : ℕ
  pub bucket_spawns : ℕ
  pub launches : List Launch

-- `d.get(k, {})`
abbrev pub row {ℓ κ} : {K : Type ℓ} {V : Type κ} → Option (Dict K V) → Dict K V
row none = []
row (some d) = d

abbrev pub and_then {ℓ κ} : {A : Type ℓ} {B : Type κ} → Option A → (A → Option B) → Option B
and_then none f = none
and_then (some a) f = f a

-- one million, the unit of the counts of wins
abbrev pub one_win : ℕ
one_win = 1_000_000

-- below 0.05 a count is forgotten
abbrev pub noise : ℕ
noise = 50_000

-- the loop over the histogram in `_bump_edge`
unfoldable pub decayed : ℕ → Dict Text ℕ → Dict Text ℕ
decayed factor [] = []
decayed factor ((pid, v) ∷ d) =
    let rest = decayed factor d in
    let kept = v * factor / one_win in if ltb kept noise then rest else (pid, kept) ∷ rest

abbrev pub won : Option ℕ → ℕ
won none = one_win
won (some n) = n + one_win

abbrev pub first_wins : Option Text → Dict Text ℕ
first_wins none = []
first_wins (some pid) = (pid, one_win) ∷ []

-- `_CoEntry(pid, now)`
abbrev pub new_entry : Option Text → ℕ → CoEntry
new_entry pid now = record {
  hits = 1;
  probe_pids = first_wins pid;
  probe_pid = pid;
  last_seen = now;
}

abbrev pub bump_entry : Config → Option Text → ℕ → Option CoEntry → CoEntry
bump_entry cfg pid now none = new_entry pid now
bump_entry cfg none now (some e) = record e { hits = e.hits + 1; last_seen = now }
bump_entry cfg (some pid) now (some e) =
    let d = decayed (cfg.half_power (now - e.last_seen)) e.probe_pids in
    record e {
      hits = e.hits + 1;
      probe_pids = put pid (won (lookup pid d)) d;
      probe_pid = some pid;
      last_seen = now;
    }

-- `_bump_edge`
unfoldable pub bump_edge : Config → Text → Text → Option Text → ℕ → Graph → Graph
unfolding decayed
bump_edge cfg src co pid now g =
    let out = row (lookup src g.cooccur) in
    record g {
      cooccur = put src (put co (bump_entry cfg pid now (lookup co out)) out) g.cooccur;
      edge_lru = move_to_end (src, co) (put (src, co) tt g.edge_lru);
    }

-- the targets of a window, each once, in the order of their first appearance
unfoldable pub seen_targets : List (Text × Option Text) → List Text → List Text
seen_targets [] seen = seen
seen_targets ((t, pid) ∷ obs) seen = seen_targets obs (set_add t seen)

abbrev pub note_pid : Text → Option Text → Dict Text Text → Dict Text Text
note_pid t none d = d
note_pid t (some pid) d = put t pid d

-- the last winner of each target
unfoldable pub pids_of : List (Text × Option Text) → Dict Text Text → Dict Text Text
pids_of [] d = d
pids_of ((t, pid) ∷ obs) d = pids_of obs (note_pid t pid d)

unfoldable pub learn_pairs : Config → Dict Text Text → ℕ → Text → List Text → Graph → Graph
unfolding bump_edge
learn_pairs cfg pids now a [] g = g
learn_pairs cfg pids now a (b ∷ bs) g =
    learn_pairs cfg pids now a bs
      (bump_edge cfg b a (lookup a pids) now (bump_edge cfg a b (lookup b pids) now g))

unfoldable pub learn_all : Config → Dict Text Text → ℕ → List Text → Graph → Graph
unfolding learn_pairs
learn_all cfg pids now [] g = g
learn_all cfg pids now (a ∷ more) g =
    learn_all cfg pids now more (learn_pairs cfg pids now a more g)

-- `_learn_window`
unfoldable pub learn_window : Config → Window → ℕ → Graph → Graph
unfolding learn_all seen_targets pids_of
learn_window cfg win now g =
    let seen = seen_targets win.observed [] in
    if ltb (length seen) 2
    then g
    else (let h = learn_all cfg (pids_of win.observed []) now seen g in
        record h { windows_learned = h.windows_learned + 1 })

-- `if not out: del self._cooccur[src]`
abbrev pub drop_empty :
    Text → Dict Text CoEntry → Dict Text (Dict Text CoEntry) → Dict Text (Dict Text CoEntry)
drop_empty src [] m = remove src m
drop_empty src (e ∷ out) m = put src (e ∷ out) m

abbrev pub drop_edge :
    Text → Text → Dict (Text × Text) Mark → Option (Dict Text CoEntry) → Graph → Option Graph
drop_edge src co lru none g = none
drop_edge src co lru (some out) g =
    if has_key co out
    then some (record g { edge_lru = lru; cooccur = drop_empty src (remove co out) g.cooccur })
    else none

abbrev pub evict_first : Dict (Text × Text) Mark → Graph → Option Graph
evict_first [] g = some g
evict_first (((src, co), u) ∷ lru) g = drop_edge src co lru (lookup src g.cooccur) g

-- `_evict_oldest_edge`
unfoldable pub evict_oldest_edge : Graph → Option Graph
evict_oldest_edge g = evict_first g.edge_lru g

-- the loop of `_enforce_cap`
unfoldable pub enforce : ℕ → Config → Graph → Option Graph
unfolding evict_oldest_edge
enforce zero cfg g = some g
enforce (suc fuel) cfg g =
    if ltb cfg.max_entries (size g.edge_lru)
    then and_then (evict_oldest_edge g) (λ h. enforce fuel cfg h)
    else some g

-- `_enforce_cap`
unfoldable pub enforce_cap : Config → Graph → Option Graph
unfolding enforce
enforce_cap cfg g = enforce (size g.edge_lru) cfg g

-- `_close_and_learn`
unfoldable pub close_and_learn : Config → Text → Window → ℕ → Graph → Option Graph
unfolding learn_window enforce_cap
close_and_learn cfg ip win now g =
    enforce_cap cfg (learn_window cfg win now (record g { windows = remove ip g.windows }))
