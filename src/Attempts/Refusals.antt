-- ===== src/Attempts/Refusals.antt =====
-- A target that refuses does not harm the proxy that asked it.
use auto_squid.Requests.{ℤ}
use auto_squid.Attempts.{
  World, Settings, done, raised, start, finish, count_attempt, succeed, charge,
}
use auto_squid.Attempts.Tunnels.{
  Round, Route, Ending, over, again, handshake, judge_line, code_of, is_sent, stale, shake,
  tunnel_round, next_round, try_tunnel, or_next, of_line, opened, not_opened,
}
use auto_squid.Selector.{Selector, record_failure}
use auto_squid.Selector.Failures.{record_failure_exempt, http_status_exempt}
use auto_squid.Failures.{Exception, runtime, classify_error, is_stale_conn_error}
use auto_squid.Base.{
  ℕ, ◌≡◌, refl, sym, ap, false, none, some, [], ◌∷◌, ◌++◌, arith, if◌then◌else◌, subst, ◌==◌,
  nat_eq, Text, text_eq, text_beq, pair_eq, option_eq, text, starts_with, has_infix, split_once,
  strip, ◌+◌, ◌∙◌, Bool, true, ◌&&◌, Option, if_elim,
}
use auto_squid.Dict.Laws.{kept}

-- the circuits, the count of openings and the limits are those of before
abbrev pub IsUncharged : Selector → Selector → Type 0
IsUncharged s t =
    (t.circuits.table ≡ s.circuits.table)
    × (t.circuits.open_count ≡ s.circuits.open_count)
    × (t.concs ≡ s.concs)

-- the error that a refusal raises
abbrev pub refusal : Text → Exception
refusal line = runtime (text "upstream returned non-200 for CONNECT: " ++ strip line)

refusal-kind : (line : Text) → classify_error (refusal line) ≡ text "http_status"
unfolding classify_error has_infix starts_with
refusal-kind line = refl

refusal-not_stale : (line : Text) → is_stale_conn_error (refusal line) ≡ false
unfolding is_stale_conn_error starts_with
refusal-not_stale line = refl

charge-IsUncharged :
    (c : Settings) (pid domain line : Text) (now : ℕ) (w : World)
    → IsUncharged w.selector (charge c pid domain (refusal line) now w).selector
unfolding charge
charge-IsUncharged c pid domain line now w =
    subst
      (λ kind.
        IsUncharged w.selector
          (record_failure c.circuit c.concurrency pid (some kind) (some domain) now w.selector))
      (sym (refusal-kind line))
      (record_failure_exempt c.circuit c.concurrency pid (some (text "http_status")) (some domain)
        now w.selector (http_status_exempt pid (some domain) now w.selector))

-- the proxy was reached and answered with a line that does not say 200
abbrev pub Refuses : Round → Type 0
Refuses r =
    (r.open_error ≡ none)
    × (r.drain_error ≡ none)
    × (r.line_error ≡ none)
    × (r.head_error ≡ none)
    × ((r.line == []) ≡ false)
    × ((code_of (split_once b' ' r.line) == text "200") ≡ false)

judge_lem :
    (line : Text)
    → (line == []) ≡ false
    → (code_of (split_once b' ' line) == text "200") ≡ false
    → judge_line line ≡ some (refusal line)
unfolding judge_line text_beq
judge_lem [] some_line refused = absurd (ground (arith, some_line))
judge_lem (c ∷ line) some_line refused =
    ap (λ b. if b then none else some (refusal (c ∷ line))) refused

of_line_refused :
    (r : Round) (line : Text)
    → r.head_error ≡ none
    → (line == []) ≡ false
    → (code_of (split_once b' ' line) == text "200") ≡ false
    → of_line r line ≡ some (refusal line)
unfolding text_beq
of_line_refused r [] fine some_line refused = absurd (ground (arith, some_line))
of_line_refused r (c ∷ line) fine some_line refused =
    ap (λ o. or_next o (judge_line (c ∷ line))) fine ∙ judge_lem (c ∷ line) some_line refused

handshake_refused : (r : Round) → Refuses r → handshake r ≡ some (refusal r.line)
unfolding handshake
handshake_refused r (opens, drained, lined, headed, some_line, refused) =
    ap (λ o. or_next o (or_next r.line_error (of_line r r.line))) drained
    ∙ (ap (λ o. or_next o (of_line r r.line)) lined
        ∙ of_line_refused r r.line headed some_line refused)

and_false : (a b : Bool) → (a && b && false) ≡ false
and_false true true = refl
and_false true false = refl
and_false false b = refl

-- the attempt is over and raises the refusal, and nothing was charged
abbrev IsRefused : Text → World → Ending × World → Type 0
IsRefused line w e = (e.0 ≡ over (raised (refusal line))) × IsUncharged w.selector e.1.selector

module _ (c : Settings) (route : Route) where
  shaken-IsRefused :
      (first used : Bool) (line : Text) (r : Round) (w v : World)
      → v.selector ≡ w.selector
      → IsRefused line w (
          if first && used && is_stale_conn_error (refusal line)
          then (again, finish route.pid (stale v))
          else (
            over (raised (refusal line)),
            finish route.pid (charge c route.pid route.target (refusal line) r.now v),
          ))
  shaken-IsRefused first used line r w v same =
      subst
        (λ b. IsRefused line w (
          if b then (again, finish route.pid (stale v)) else (
            over (raised (refusal line)),
            finish route.pid (charge c route.pid route.target (refusal line) r.now v),
          )))
        (sym (ap (λ b. first && used && b) (refusal-not_stale line) ∙ and_false first used))
        (
          refl,
          subst
              (λ s. IsUncharged s (charge c route.pid route.target (refusal line) r.now v).selector)
              same (charge-IsUncharged c route.pid route.target line r.now v),
        )

  begun-selector :
      (r : Round) (w : World)
      → (if is_sent r
          then count_attempt route.pid (start route.pid w)
          else start route.pid w).selector
        ≡ w.selector
  begun-selector r w =
      if_elim (λ (v : World). v.selector ≡ w.selector) (is_sent r) (λ _. refl) (λ _. refl)

  shake-IsRefused :
      (first used : Bool) (r : Round) (w : World)
      → Refuses r
      → IsRefused r.line w (shake c route first used r w)
  unfolding shake
  shake-IsRefused first used r w h =
      let v =
        if is_sent r then count_attempt route.pid (start route.pid w) else start route.pid w in
      subst
        (λ o. IsRefused r.line w (elim o [
          | none ↦ (over done, finish route.pid (succeed c route.pid route.target r.ttfb r.now v))
          | some e ↦
              if first && used && is_stale_conn_error e
              then (again, finish route.pid (stale v))
              else (over (raised e), finish route.pid (charge c route.pid route.target e r.now v))
        ]))
        (sym (handshake_refused r h))
        (shaken-IsRefused first used r.line r w v (begun-selector r w))

  opened-IsRefused :
      (r : Round) (u w : World)
      → u.selector ≡ w.selector
      → Refuses r
      → IsRefused r.line w (opened c route true r u)
  opened-IsRefused r u w same h =
      let made = shake-IsRefused true false r u h in
      subst
        (λ o.
          IsRefused r.line w
            (elim o [ none ↦ shake c route true false r u | some e ↦ not_opened c route e r u ]))
        (sym h.0)
        (made.0, subst (λ s. IsUncharged s (shake c route true false r u).1.selector) same made.1)

  tunnel_round-IsRefused :
      (int : Text → Option ℤ) (r : Round) (w : World)
      → route.is_direct ≡ false
      → Refuses r
      → IsRefused r.line w (tunnel_round int c route true r w)
  unfolding tunnel_round
  tunnel_round-IsRefused int r w proxied h =
      if_elim (IsRefused r.line w) route.is_direct
        (λ direct. absurd (ground (arith, direct, proxied)))
        (λ _.
          if_elim (IsRefused r.line w) (true && route.conn_pool_enabled && r.pooled)
            (λ _. shake-IsRefused true true r w h)
            (λ _.
              opened-IsRefused r (record w { connect_new_conns = w.connect_new_conns + 1 }) w refl
                h))

  once :
      (int : Text → Option ℤ) (r2 : Round) (line : Text) (w : World) (e : Ending × World)
      → IsRefused line w e
      → ((next_round int c route r2 e).0 ≡ some (raised (refusal line)))
        × IsUncharged w.selector (next_round int c route r2 e).1.selector
  once int r2 line w (over result, v) (at, kept) = (ground (arith, at), kept)
  once int r2 line w (again, v) (at, kept) = absurd (ground (arith, at))

  -- A proxy that is reached and answers CONNECT with any line that does not say 200 refuses for the
  -- target: the attempt raises this at once, also on a connection from a pool, and no circuit
  -- changes, none opens, and no concurrency limit is cut.
  pub try_tunnel_refused :
      (int : Text → Option ℤ) (r1 r2 : Round) (w : World)
      → route.is_direct ≡ false
      → Refuses r1
      → ((try_tunnel int c route r1 r2 w).0 ≡ some (raised (refusal r1.line)))
        × IsUncharged w.selector (try_tunnel int c route r1 r2 w).1.selector
  unfolding try_tunnel
  try_tunnel_refused int r1 r2 w proxied h =
      once int r2 r1.line w (tunnel_round int c route true r1 w)
        (tunnel_round-IsRefused int r1 w proxied h)
