-- ===== src/Circuit/Opening.antt =====
-- When failures open a circuit, for how long, and that an open circuit is not prolonged.
use native.Mathlib.Nat.{pow-suc}
use auto_squid.Base.{
  ℕ, zero, suc, ◌+◌, ◌*◌, ◌^◌, ◌≤◌, ◌<◌, min, List, [], ◌∷◌, ◌++◌, ◌≡◌, refl, arith, length, nat_eq,
  text_eq,
}
use auto_squid.Circuit.{Config, Circuit, charge, next_backoff, backoff_base}
use auto_squid.Circuit.Backoff.{IsConfig}

-- charged failures of one proxy at the given times
unfoldable pub charge_all : Config → List ℕ → Circuit → Circuit
charge_all cfg [] s = s
charge_all cfg (t ∷ ts) s = charge_all cfg ts (charge cfg t s).0

abbrev pub AllFrom : ℕ → List ℕ → Type 0
AllFrom a [] = Unit
AllFrom a (t ∷ ts) = (a ≤ t) × AllFrom a ts

abbrev pub AllBefore : ℕ → List ℕ → Type 0
AllBefore a [] = Unit
AllBefore a (t ∷ ts) = (t < a) × AllBefore a ts

charge_below :
    (cfg : Config) (t : ℕ) (s : Circuit)
    → s.open_until ≤ t
    → s.consec_fail + 1 < cfg.circuit_threshold
    → (charge cfg t s).0 ≡ record s { consec_fail = s.consec_fail + 1 }
unfolding charge
charge_below cfg t s h n = ground arith

charge_at :
    (cfg : Config) (t : ℕ) (s : Circuit)
    → s.open_until ≤ t
    → s.consec_fail + 1 ≡ cfg.circuit_threshold
    → (charge cfg t s).0 ≡ record s {
      consec_fail = 0;
      backoff = next_backoff cfg s.backoff;
      open_until = t + next_backoff cfg s.backoff;
    }
unfolding charge
charge_at cfg t s h n = ground arith

charge_all_below :
    (cfg : Config) (ts : List ℕ) (s : Circuit)
    → AllFrom s.open_until ts
    → s.consec_fail + length ts < cfg.circuit_threshold
    → charge_all cfg ts s ≡ record s { consec_fail = s.consec_fail + length ts }
unfolding charge_all
charge_all_below cfg [] s h n = ground arith
charge_all_below cfg (t ∷ ts) s h n =
    let s' : Circuit = record s { consec_fail = s.consec_fail + 1 } in
    ground (arith, charge_below cfg t s, charge_all_below cfg ts s' h.1)

charge_all-append :
    (cfg : Config) (ts us : List ℕ) (s : Circuit)
    → charge_all cfg (ts ++ us) s ≡ charge_all cfg us (charge_all cfg ts s)
unfolding charge_all
charge_all-append cfg [] us s = refl
charge_all-append cfg (t ∷ ts) us s = charge_all-append cfg ts us (charge cfg t s).0

-- Of a proxy outside its backoff with no failure counted, fewer failures in a row than the
-- threshold only count up; the failure that reaches the threshold opens the circuit from its own
-- time on, for the next backoff, and clears the count.
pub charge_all_opens :
    (cfg : Config) (ts : List ℕ) (now : ℕ) (s : Circuit)
    → AllFrom s.open_until ts
    → s.open_until ≤ now
    → s.consec_fail ≡ 0
    → length ts + 1 ≡ cfg.circuit_threshold
    → (charge_all cfg ts s ≡ record s { consec_fail = length ts })
      × (charge_all cfg (ts ++ now ∷ []) s ≡ record s {
        consec_fail = 0;
        backoff = next_backoff cfg s.backoff;
        open_until = now + next_backoff cfg s.backoff;
      })
charge_all_opens cfg ts now s h hn z n =
    let below : charge_all cfg ts s ≡ record s { consec_fail = length ts } =
      ground (arith, charge_all_below cfg ts s h) in
    (
      below,
      rw (charge_all-append, below)
          (unfold charge_all in charge_at cfg now (record s { consec_fail = length ts }) hn n),
    )

-- However many failures are charged while the circuit is open, it neither stays open longer nor
-- backs off longer: only the count is cleared.
pub charge_all_frozen :
    (cfg : Config) (t : ℕ) (ts : List ℕ) (s : Circuit)
    → AllBefore s.open_until (t ∷ ts)
    → charge_all cfg (t ∷ ts) s ≡ record s { consec_fail = 0 }
unfolding charge_all charge
charge_all_frozen cfg t [] s h = ground arith
charge_all_frozen cfg t (u ∷ ts) s h =
    ground (arith, charge_all_frozen cfg u ts (record s { consec_fail = 0 }) h.1)

-- the backoff after `n` openings with no decay in between
unfoldable pub backoffs : Config → ℕ → ℕ
backoffs cfg zero = 0
backoffs cfg (suc n) = next_backoff cfg (backoffs cfg n)

pow_pos : (n : ℕ) → 1 ≤ 2 ^ n
pow_pos zero = omega arith
pow_pos (suc n) = rw pow-suc (omega (arith, pow_pos n))

-- With settings as the constructor clamps them the backoff doubles with each opening up to the
-- maximum: the first opening lasts twice the base.
pub backoffs_lem :
    (cfg : Config) (n : ℕ)
    → IsConfig cfg
    → backoffs cfg (suc n) ≡ min cfg.circuit_max_backoff (backoff_base * 2 ^ suc n)
unfolding backoffs next_backoff
backoffs_lem cfg zero ok = ground arith
backoffs_lem cfg (suc n) ok =
    ground (arith, backoffs_lem cfg n ok, pow-suc 2 n, pow-suc 2 (suc n), ok.max_backoff, pow_pos n)
