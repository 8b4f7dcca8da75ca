-- ===== src/Concurrency.antt =====
-- The adaptive limit on the requests in flight of each proxy (`_conc_*` of auto_squid/selector.py):
-- additive increase on success, multiplicative decrease on failure. The source keeps the limit as a
-- float and reads it through `int`; the model keeps the integer that is read.
pub mod Bounds
use auto_squid.InFlight.{InFlight, active}
use auto_squid.Base.{
  ℕ, ◌+◌, ◌*◌, ◌/◌, min, max, Bool, false, ◌&&◌, none, some, ltb, leb, if◌then◌else◌, nat_eq, Text,
  text_eq,
}
use auto_squid.Dict.{Dict, lookup, put}

pub record Config : Type 0 where
  pub enabled : Bool
  pub initial : ℕ
  pub min_limit : ℕ
  pub max_limit : ℕ
  pub add : ℕ
  pub mult_num : ℕ
  pub mult_den : ℕ
  pub window : ℕ

-- the clamping done by `__init__`; the factor is the fraction `num / den`, at most 1
unfoldable pub make_config : Bool → ℕ → ℕ → ℕ → ℕ → ℕ → ℕ → ℕ → Config
make_config enabled initial lo hi add num den window = record {
  enabled = enabled;
  initial = max 1 initial;
  min_limit = max 1 (min lo (max 1 initial));
  max_limit = max (max 1 initial) hi;
  add = max 1 add;
  mult_num = min num den;
  mult_den = den;
  window = max 1 window;
}

pub record Conc : Type 0 where
  pub limit : ℕ
  pub good : ℕ
  pub bad : ℕ

abbrev pub new_conc : Config → Conc
new_conc cfg = record { limit = cfg.initial; good = 0; bad = 0 }

-- `_conc_state`
unfoldable pub conc_state : Config → Text → Dict Text Conc → Conc × Dict Text Conc
conc_state cfg pid t = elim (lookup pid t) [
  | none ↦ (new_conc cfg, put pid (new_conc cfg) t)
  | some s ↦ (s, t)
]

-- `_at_concurrency_limit`
unfoldable pub at_concurrency_limit :
    Config → InFlight → Text → Dict Text Conc → Bool × Dict Text Conc
unfolding conc_state
at_concurrency_limit cfg f pid t =
    if cfg.enabled
    then (let (s, t') = conc_state cfg pid t in (leb s.limit (active pid f), t'))
    else (false, t)

-- one success at a state that exists
unfoldable pub raise_limit : Config → Conc → Conc
raise_limit cfg s =
    if leb cfg.window (s.good + 1) && ltb s.limit cfg.max_limit
    then record s { limit = min cfg.max_limit (s.limit + cfg.add); good = 0; bad = 0 }
    else record s { good = s.good + 1; bad = 0 }

-- one failure at a state that exists; `fail >= 1` always holds there
unfoldable pub lower_limit : Config → Conc → Conc
lower_limit cfg s = record s {
  limit = max cfg.min_limit (s.limit * cfg.mult_num / cfg.mult_den);
  good = 0;
  bad = 0;
}

-- `_conc_observe_success`
unfoldable pub conc_observe_success : Config → Text → Dict Text Conc → Dict Text Conc
unfolding conc_state raise_limit
conc_observe_success cfg pid t =
    if cfg.enabled
    then (let (s, t') = conc_state cfg pid t in put pid (raise_limit cfg s) t')
    else t

-- `_conc_observe_failure`
unfoldable pub conc_observe_failure : Config → Text → Dict Text Conc → Dict Text Conc
unfolding conc_state lower_limit
conc_observe_failure cfg pid t =
    if cfg.enabled
    then (let (s, t') = conc_state cfg pid t in put pid (lower_limit cfg s) t')
    else t
