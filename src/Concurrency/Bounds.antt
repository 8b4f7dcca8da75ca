-- ===== src/Concurrency/Bounds.antt =====
-- The limits stay in their range, and how fast they move.
use auto_squid.Concurrency.{
  Config, Conc, make_config, new_conc, raise_limit, lower_limit, conc_observe_success,
  conc_observe_failure,
}
use auto_squid.Base.{
  ℕ, ◌+◌, ◌≤◌, ◌≡◌, Bool, arith, nat_eq, text_eq, true, none, some, if◌then◌else◌, ◌==◌, Text,
  pair_eq, refl, ap, ◌∙◌, List, [], ◌∷◌, text_beq_iff, ltb, option_eq, scale_le,
}
use auto_squid.Dict.{Dict, lookup, put}
use auto_squid.Dict.Laws.{lookup-nil, lookup-put}

pub record IsConfig (cfg : Config) : Type 0 where
  pub low : 1 ≤ cfg.min_limit
  pub start : (cfg.min_limit ≤ cfg.initial) × (cfg.initial ≤ cfg.max_limit)
  pub add : 1 ≤ cfg.add
  pub factor : cfg.mult_num ≤ cfg.mult_den
  pub window : 1 ≤ cfg.window

pub make_config-IsConfig :
    (b : Bool) (initial lo hi add num den window : ℕ)
    → IsConfig (make_config b initial lo hi add num den window)
unfolding make_config
make_config-IsConfig b initial lo hi add num den window = omega arith

abbrev pub InRange : Config → Conc → Type 0
InRange cfg s = (cfg.min_limit ≤ s.limit) × (s.limit ≤ cfg.max_limit)

module _ (cfg : Config) (ok : IsConfig cfg) where
  raise_limit-InRange : (s : Conc) → InRange cfg s → InRange cfg (raise_limit cfg s)
  unfolding raise_limit
  raise_limit-InRange s h = ground arith

  lower_limit-InRange : (s : Conc) → InRange cfg s → InRange cfg (lower_limit cfg s)
  unfolding lower_limit
  lower_limit-InRange s h =
      ground (arith, ok.factor, ok.start, scale_le s.limit cfg.mult_num cfg.mult_den)

  -- With valid settings and a limit in its range, a success never lowers the limit and raises it
  -- by at most the configured step, and only when the window of successes is full; a failure
  -- never raises it and clears the successes counted.
  pub limit_moves :
      (s : Conc)
      → InRange cfg s
      → (s.limit ≤ (raise_limit cfg s).limit)
        × ((raise_limit cfg s).limit
            ≤ (if ltb (s.good + 1) cfg.window then s.limit else s.limit + cfg.add))
        × ((lower_limit cfg s).limit ≤ s.limit)
        × ((lower_limit cfg s).good ≡ 0)
  unfolding raise_limit lower_limit
  limit_moves s h = ground (arith, ok.factor, scale_le s.limit cfg.mult_num cfg.mult_den)

-- the state that the checks read for a proxy: its own, or the initial one
unfoldable pub conc_of : Config → Text → Dict Text Conc → Conc
conc_of cfg pid t = elim (lookup pid t) [ none ↦ new_conc cfg | some s ↦ s ]

module _ (cfg : Config) (pid q : Text) (t : Dict Text Conc) (on : cfg.enabled ≡ true) where
  conc_of-conc_observe_success :
      conc_of cfg q (conc_observe_success cfg pid t)
      ≡ (if pid == q then raise_limit cfg (conc_of cfg q t) else conc_of cfg q t)
  unfolding conc_of conc_observe_success
  conc_of-conc_observe_success =
      let s = conc_of cfg pid t in
      ground (
        arith,
        on,
        lookup-put pid q (raise_limit cfg s) t,
        lookup-put pid q (raise_limit cfg s) (put pid (new_conc cfg) t),
        lookup-put pid q (new_conc cfg) t,
        text_beq_iff pid q,
      )

  conc_of-conc_observe_failure :
      conc_of cfg q (conc_observe_failure cfg pid t)
      ≡ (if pid == q then lower_limit cfg (conc_of cfg q t) else conc_of cfg q t)
  unfolding conc_of conc_observe_failure
  conc_of-conc_observe_failure =
      let s = conc_of cfg pid t in
      ground (
        arith,
        on,
        lookup-put pid q (lower_limit cfg s) t,
        lookup-put pid q (lower_limit cfg s) (put pid (new_conc cfg) t),
        lookup-put pid q (new_conc cfg) t,
        text_beq_iff pid q,
      )

-- observations of the attempts
pub data Event : Type 0 where
  succeeded : Text → Event
  failed : Text → Event

unfoldable pub run : Config → List Event → Dict Text Conc → Dict Text Conc
run cfg [] t = t
run cfg (succeeded pid ∷ es) t = run cfg es (conc_observe_success cfg pid t)
run cfg (failed pid ∷ es) t = run cfg es (conc_observe_failure cfg pid t)

-- one proxy's own limit under the observations of that proxy alone
pub follow : Config → Text → List Event → Conc → Conc
follow cfg q [] s = s
follow cfg q (succeeded pid ∷ es) s = follow cfg q es (if pid == q then raise_limit cfg s else s)
follow cfg q (failed pid ∷ es) s = follow cfg q es (if pid == q then lower_limit cfg s else s)

-- While the limits are enabled each proxy's limit depends on its own observations only: it is
-- what these alone make of the state that it had.
pub conc_of-run :
    (cfg : Config) (es : List Event) (q : Text) (t : Dict Text Conc)
    → cfg.enabled ≡ true
    → conc_of cfg q (run cfg es t) ≡ follow cfg q es (conc_of cfg q t)
unfolding run follow
conc_of-run cfg [] q t on = refl
conc_of-run cfg (succeeded pid ∷ es) q t on =
    conc_of-run cfg es q (conc_observe_success cfg pid t) on
    ∙ ap (follow cfg q es) (conc_of-conc_observe_success cfg pid q t on)
conc_of-run cfg (failed pid ∷ es) q t on =
    conc_of-run cfg es q (conc_observe_failure cfg pid t) on
    ∙ ap (follow cfg q es) (conc_of-conc_observe_failure cfg pid q t on)

follow-InRange :
    (cfg : Config) (es : List Event) (q : Text) (s : Conc)
    → IsConfig cfg
    → InRange cfg s
    → InRange cfg (follow cfg q es s)
unfolding follow
follow-InRange cfg [] q s ok h = h
follow-InRange cfg (succeeded pid ∷ es) q s ok h = ground (
  arith,
  follow-InRange cfg es q (raise_limit cfg s) ok,
  follow-InRange cfg es q s ok,
  raise_limit-InRange cfg ok s,
)
follow-InRange cfg (failed pid ∷ es) q s ok h = ground (
  arith,
  follow-InRange cfg es q (lower_limit cfg s) ok,
  follow-InRange cfg es q s ok,
  lower_limit-InRange cfg ok s,
)

initial-InRange : (cfg : Config) (q : Text) → IsConfig cfg → InRange cfg (conc_of cfg q [])
unfolding conc_of
initial-InRange cfg q ok = rw (lookup-nil {V = Conc} q, conc_of) ok.start

-- Whatever successes and failures are observed of whichever proxies from an empty table on, with
-- the limits enabled and the settings as the constructor clamps them, every proxy's limit stays
-- between the configured minimum and maximum.
pub run-InRange :
    (cfg : Config) (es : List Event) (q : Text)
    → IsConfig cfg
    → cfg.enabled ≡ true
    → InRange cfg (conc_of cfg q (run cfg es []))
run-InRange cfg es q ok on =
    let start : InRange cfg (conc_of cfg q []) = initial-InRange cfg q ok in
    rw (conc_of-run cfg es q [] on) (follow-InRange cfg es q (conc_of cfg q []) ok start)
