-- ===== src/Order/Candidates.antt =====
-- The filter of the candidates against a test that changes nothing.
use mathlib.Core.Option
use auto_squid.Circuit.{Circuit, Circuits, is_circuit_open}
use auto_squid.Circuit.Lookups.{ask, lookup-is_circuit_open}
use auto_squid.Concurrency.{Conc, at_concurrency_limit, conc_state, new_conc}
use auto_squid.Concurrency
use auto_squid.InFlight.{InFlight, active}
use auto_squid.Order.{Proxy, Settings, filtered}
use auto_squid.Base.{
  ℕ, ◌≡◌, Bool, false, not, ◌&&◌, Option, none, some, arith, ltb, leb, ◌==◌, nat_eq, Text, text_eq,
  pair_eq, option_eq, refl, ◌∙◌, List, [], ◌∷◌, select,
}
use auto_squid.Dict.{Dict, lookup}
use auto_squid.Dict.Laws.{lookup-put}

abbrev pub open_state : ℕ → Option Circuit → Bool
open_state now none = false
open_state now (some s) = not (s.open_until == 0) && ltb now s.open_until

abbrev pub limit_of : Concurrency.Config → Option Conc → ℕ
limit_of cfg none = (new_conc cfg).limit
limit_of cfg (some s) = s.limit

-- an enabled proxy whose circuit is not open now and that may take another request
abbrev pub fits : Settings → ℕ → InFlight → Circuits → Dict Text Conc → Proxy → Bool
fits cfg now f c t p =
    p.enabled
    && not (open_state now (lookup p.id c.table))
    && not (cfg.conc.enabled && leb (limit_of cfg.conc (lookup p.id t)) (active p.id f))

asked_lem :
    (now : ℕ) (pid : Text) (c : Circuits)
    → (is_circuit_open now pid c).0 ≡ open_state now (lookup pid c.table)
unfolding is_circuit_open
asked_lem now pid c = ground arith

asked_state : (now : ℕ) (s : Circuit) → open_state now (some (ask now s)) ≡ open_state now (some s)
unfolding ask
asked_state now s = ground arith

asked_option :
    (now : ℕ) (o : Option Circuit) → open_state now (Option.map (ask now) o) ≡ open_state now o
asked_option now none = refl
asked_option now (some s) = asked_state now s

asked_same :
    (now : ℕ) (pid j : Text) (c : Circuits)
    → open_state now (lookup j (is_circuit_open now pid c).1.table)
      ≡ open_state now (lookup j c.table)
asked_same now pid j c = ground (
  arith,
  lookup-is_circuit_open now pid j c,
  asked_option now (lookup pid c.table),
  text_eq.beq_iff pid j,
)

limit_lem :
    (cfg : Concurrency.Config) (f : InFlight) (pid : Text) (t : Dict Text Conc)
    → (at_concurrency_limit cfg f pid t).0
      ≡ (cfg.enabled && leb (limit_of cfg (lookup pid t)) (active pid f))
unfolding at_concurrency_limit conc_state
limit_lem cfg f pid t = ground arith

limit_same :
    (cfg : Concurrency.Config) (f : InFlight) (pid j : Text) (t : Dict Text Conc)
    → limit_of cfg (lookup j (at_concurrency_limit cfg f pid t).1) ≡ limit_of cfg (lookup j t)
unfolding at_concurrency_limit conc_state
limit_same cfg f pid j t = ground (arith, lookup-put pid j (new_conc cfg) t, text_eq.beq_iff pid j)

abbrev pub ids : List Proxy → List Text
ids [] = []
ids (p ∷ ps) = p.id ∷ ids ps

-- the circuits and limits answer alike
record IsAlike (cfg : Settings) (now : ℕ) (c c' : Circuits) (t t' : Dict Text Conc) : Type 0 where
  opens : (j : Text) → open_state now (lookup j c'.table) ≡ open_state now (lookup j c.table)
  limits : (j : Text) → limit_of cfg.conc (lookup j t') ≡ limit_of cfg.conc (lookup j t)

asked-IsAlike :
    (cfg : Settings) (now : ℕ) (pid : Text) (c c' : Circuits) (t t' : Dict Text Conc)
    → IsAlike cfg now c c' t t'
    → IsAlike cfg now c (is_circuit_open now pid c').1 t t'
asked-IsAlike cfg now pid c c' t t' h = record {
  opens = λ j. asked_same now pid j c' ∙ h.opens j;
  limits = h.limits;
}

limit-IsAlike :
    (cfg : Settings) (now : ℕ) (f : InFlight) (pid : Text) (c c' : Circuits) (t t' : Dict Text Conc)
    → IsAlike cfg now c c' t t'
    → IsAlike cfg now c c' t (at_concurrency_limit cfg.conc f pid t').1
limit-IsAlike cfg now f pid c c' t t' h = record {
  opens = h.opens;
  limits = λ j. limit_same cfg.conc f pid j t' ∙ h.limits j;
}

filtered-IsAlike :
    (cfg : Settings) (now : ℕ) (f : InFlight) (ps : List Proxy) (c c' : Circuits)
    (t t' : Dict Text Conc)
    → IsAlike cfg now c c' t t'
    → (filtered cfg now f ps c' t').0 ≡ ids (select (fits cfg now f c t) ps)
unfolding filtered select
filtered-IsAlike cfg now f [] c c' t t' h = refl
filtered-IsAlike cfg now f (p ∷ ps) c c' t t' h =
    let asked = is_circuit_open now p.id c' in
    let limit = at_concurrency_limit cfg.conc f p.id t' in
    let a = asked-IsAlike cfg now p.id c c' t t' h in
    ground (
      arith,
      filtered-IsAlike cfg now f ps c c' t t' h,
      filtered-IsAlike cfg now f ps c asked.1 t t' a,
      filtered-IsAlike cfg now f ps c asked.1 t limit.1
          (limit-IsAlike cfg now f p.id c asked.1 t t' a),
      asked_lem now p.id c',
      h.opens p.id,
      limit_lem cfg.conc f p.id t',
      h.limits p.id,
    )

-- Although asking a circuit may release it and asking a limit may create it, the filter keeps exactly
-- the proxies that, before it started, were enabled, had no open circuit and could take another
-- request, in the order of the store.
pub filtered_lem :
    (cfg : Settings) (now : ℕ) (f : InFlight) (ps : List Proxy) (c : Circuits) (t : Dict Text Conc)
    → (filtered cfg now f ps c t).0 ≡ ids (select (fits cfg now f c t) ps)
filtered_lem cfg now f ps c t =
    filtered-IsAlike cfg now f ps c c t t (record { opens = λ j. refl; limits = λ j. refl })
