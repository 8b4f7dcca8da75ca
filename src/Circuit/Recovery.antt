-- ===== src/Circuit/Recovery.antt =====
-- How a circuit is released and how a proxy leaves its slow start.
use auto_squid.Base.{
  ℕ, ◌+◌, ◌/◌, ◌≤◌, ◌<◌, max, ltb, true, false, some, List, [], ◌∷◌, Text, ◌≡◌, ◌≢◌, refl, arith,
  length, text_eq, if◌then◌else◌, beq_refl, ◌++◌, nat_eq,
}
use auto_squid.Dict.{lookup}
use auto_squid.Circuit.{
  Config, Circuit, Circuits, backoff_base, is_circuit_open, slow_starting, credit,
}
use auto_squid.Circuit.Lookups.{ask, lookup-is_circuit_open, is_circuit_open-eq}
use auto_squid.Circuit.Opening.{AllBefore}

-- the state that an expired backoff leaves
abbrev pub released : ℕ → Circuit → Circuit
released now s = record s { open_until = 0; started_at = now; slow_start_ok = 0; consec_fail = 0 }

closed_stays :
    (later now : ℕ) (pid : Text) (c : Circuits) (s : Circuit)
    → lookup pid c.table ≡ some (released now s)
    → is_circuit_open later pid c ≡ (false, c)
unfolding is_circuit_open
closed_stays later now pid c s h = ground (arith, h)

expired :
    (now : ℕ) (pid : Text) (c : Circuits) (s : Circuit)
    → lookup pid c.table ≡ some s
    → s.open_until ≢ 0
    → s.open_until ≤ now
    → lookup pid (is_circuit_open now pid c).1.table ≡ some (released now s)
unfolding ask
expired now pid c s h p q = ground (arith, h, lookup-is_circuit_open now pid pid c, beq_refl pid)

-- A circuit that was opened is reported open, and left alone, as long as its time is not reached.
pub is_circuit_open_early :
    (pid : Text) (c : Circuits) (s : Circuit) (now : ℕ)
    → lookup pid c.table ≡ some s
    → now < s.open_until
    → is_circuit_open now pid c ≡ (true, c)
unfolding is_circuit_open
is_circuit_open_early pid c s now found early = ground (arith, found)

-- From the end of its time on, the first question about an opened circuit finds it closed and releases
-- it into the slow start, and a question at any later moment finds it closed and changes nothing.
pub is_circuit_open_late :
    (pid : Text) (c : Circuits) (s : Circuit) (now later : ℕ)
    → lookup pid c.table ≡ some s
    → s.open_until ≢ 0
    → s.open_until ≤ now
    → ((is_circuit_open now pid c).0 ≡ false)
      × (lookup pid (is_circuit_open now pid c).1.table ≡ some (released now s))
      × (is_circuit_open later pid (is_circuit_open now pid c).1
          ≡ (false, (is_circuit_open now pid c).1))
is_circuit_open_late pid c s now later found opened late =
    let gone : lookup pid (is_circuit_open now pid c).1.table ≡ some (released now s) =
      expired now pid c s found opened late in
    (
      rw (is_circuit_open-eq, found) (ground arith),
      gone,
      closed_stays later now pid (is_circuit_open now pid c).1 s gone,
    )

-- the successes of one proxy at the given times
unfoldable pub credit_all : Config → List ℕ → Circuit → Circuit
credit_all cfg [] s = s
credit_all cfg (t ∷ ts) s = credit_all cfg ts (credit cfg t s)

credit_below :
    (cfg : Config) (t : ℕ) (s : Circuit)
    → slow_starting cfg t s ≡ true
    → s.slow_start_ok + 1 < cfg.slow_start_success
    → credit cfg t s ≡ record s { consec_fail = 0; slow_start_ok = s.slow_start_ok + 1 }
unfolding credit
credit_below cfg t s h n = ground arith

-- While fewer successes than wanted have come in within the window, the proxy stays in its slow
-- start with the backoff it had.
credit_all_below :
    (cfg : Config) (ts : List ℕ) (s : Circuit)
    → s.started_at ≢ 0
    → AllBefore (s.started_at + cfg.slow_start_window) ts
    → s.slow_start_ok + length ts < cfg.slow_start_success
    → s.consec_fail ≡ 0
    → credit_all cfg ts s ≡ record s { slow_start_ok = s.slow_start_ok + length ts }
unfolding credit_all
credit_all_below cfg [] s p w n z = ground arith
credit_all_below cfg (t ∷ ts) s p w n z =
    let s' : Circuit = record s { slow_start_ok = s.slow_start_ok + 1 } in
    let one : credit cfg t s ≡ s' =
      ground (arith, credit_below cfg t s (unfold slow_starting in ground arith)) in
    rw one (ground (arith, credit_all_below cfg ts s' p w.1))

credit_all-append :
    (cfg : Config) (ts us : List ℕ) (s : Circuit)
    → credit_all cfg (ts ++ us) s ≡ credit_all cfg us (credit_all cfg ts s)
unfolding credit_all
credit_all-append cfg [] us s = refl
credit_all-append cfg (t ∷ ts) us s = credit_all-append cfg ts us (credit cfg t s)

-- A proxy released into its slow start, at a time other than 0, leaves it with exactly the
-- wanted number of successes within the window: one fewer leaves it in the slow start with its
-- backoff untouched, and the last one takes it out and halves the backoff once, not below the
-- base.
pub credit_all_recovers :
    (cfg : Config) (ts : List ℕ) (now then' : ℕ) (s : Circuit)
    → now ≢ 0
    → AllBefore (now + cfg.slow_start_window) ts
    → then' < now + cfg.slow_start_window
    → length ts + 1 ≡ cfg.slow_start_success
    → (slow_starting cfg then' (credit_all cfg ts (released now s)) ≡ true)
      × ((credit_all cfg ts (released now s)).backoff ≡ s.backoff)
      × (slow_starting cfg then' (credit_all cfg (ts ++ then' ∷ []) (released now s)) ≡ false)
      × ((credit_all cfg (ts ++ then' ∷ []) (released now s)).backoff
          ≡ (if ltb backoff_base s.backoff then max backoff_base (s.backoff / 2) else s.backoff))
credit_all_recovers cfg ts now then' s p w h n =
    let before : credit_all cfg ts (released now s)
        ≡ record (released now s) { slow_start_ok = length ts } =
      ground (arith, credit_all_below cfg ts (released now s) p w) in
    rw (credit_all-append, before)
      (unfold slow_starting credit_all credit in (ground arith, refl, ground arith, ground arith))
