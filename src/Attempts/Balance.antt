-- ===== src/Attempts/Balance.antt =====
-- Attempts that end leave nothing in flight.
use auto_squid.Requests.{ℤ}
use auto_squid.Failures.{Exception, is_cancelled, is_stale_conn_error}
use auto_squid.Attempts.{
  World, Settings, Result, done, raised, start, finish, count_attempt, succeed, charge, try_http,
}
use auto_squid.Attempts.Tunnels.{
  Round, Route, Ending, over, again, handshake, is_sent, stale, shake, is_os, is_value_error,
  not_opened, tunnel_round, last_result, next_round, try_tunnel, try_tunnel_host, port_text,
  is_number,
}
use auto_squid.Base.{
  starts_with, contains, [], ◌∷◌, ℕ, ◌≡◌, refl, ap, ◌∙◌, Option, none, some, arith, if_elim, nat_eq,
  Text, text_eq, ◌+◌, Bool, true, false, not, ◌&&◌, if◌then◌else◌, ◌==◌, pair_eq, option_eq, length,
}
use auto_squid.InFlight.{InFlight, active, inflight_start, inflight_finish}
use auto_squid.InFlight.Counts.{active-inflight_start, active-inflight_finish}

active-finish :
    (q pid : Text) (f : InFlight)
    → active q (inflight_finish pid (inflight_start pid f)) ≡ active q f
active-finish q pid f =
    ground
      (arith, active-inflight_finish q pid (inflight_start pid f), active-inflight_start q pid f)

succeed-inflight :
    (c : Settings) (pid domain : Text) (ttfb now : ℕ) (w : World)
    → (succeed c pid domain ttfb now w).inflight ≡ w.inflight
unfolding succeed
succeed-inflight c pid domain ttfb now w = refl

charge-inflight :
    (c : Settings) (pid domain : Text) (e : Exception) (now : ℕ) (w : World)
    → (charge c pid domain e now w).inflight ≡ w.inflight
unfolding charge
charge-inflight c pid domain e now w =
    if_elim (λ (v : World). v.inflight ≡ w.inflight) (is_cancelled e) (λ _. refl) (λ _. refl)

-- as many attempts are in flight after as before, for each proxy
abbrev pub IsBalanced : World → World → Type 0
IsBalanced w v = (q : Text) → active q v.inflight ≡ active q w.inflight

finish-IsBalanced :
    (pid : Text) (w v : World)
    → v.inflight ≡ inflight_start pid w.inflight
    → IsBalanced w (finish pid v)
finish-IsBalanced pid w v at q =
    ap (λ f. active q (inflight_finish pid f)) at ∙ active-finish q pid w.inflight

pub try_http-IsBalanced :
    (c : Settings) (pid domain : Text) (sent : Option Exception) (ttfb now : ℕ) (w : World)
    → IsBalanced w (try_http c pid domain sent ttfb now w).1
unfolding try_http
try_http-IsBalanced c pid domain none ttfb now w =
    let v = count_attempt pid (start pid w) in
    finish-IsBalanced pid w (succeed c pid domain ttfb now v)
      (succeed-inflight c pid domain ttfb now v)
try_http-IsBalanced c pid domain (some e) ttfb now w =
    let v = count_attempt pid (start pid w) in
    finish-IsBalanced pid w (charge c pid domain e now v) (charge-inflight c pid domain e now v)

-- an ending with the world after it, against the world before
abbrev Evenly : World → Ending × World → Type 0
Evenly w r = IsBalanced w r.1

begun : Text → Round → World → World
begun pid r w = if is_sent r then count_attempt pid (start pid w) else start pid w

begun-inflight :
    (pid : Text) (r : Round) (w : World) → (begun pid r w).inflight ≡ inflight_start pid w.inflight
unfolding begun
begun-inflight pid r w =
    if_elim (λ (v : World). v.inflight ≡ inflight_start pid w.inflight) (is_sent r) (λ _. refl)
      (λ _. refl)

module _ (c : Settings) (route : Route) where
  shaken :
      (first used : Bool) (o : Option Exception) (r : Round) (w v : World)
      → v.inflight ≡ inflight_start route.pid w.inflight
      → Evenly w (elim o [
        | none ↦ (over done, finish route.pid (succeed c route.pid route.target r.ttfb r.now v))
        | some e ↦
            if first && used && is_stale_conn_error e
            then (again, finish route.pid (stale v))
            else (over (raised e), finish route.pid (charge c route.pid route.target e r.now v))
      ])
  shaken first used none r w v at =
      finish-IsBalanced route.pid w (succeed c route.pid route.target r.ttfb r.now v)
        (succeed-inflight c route.pid route.target r.ttfb r.now v ∙ at)
  shaken first used (some e) r w v at =
      if_elim (Evenly w) (first && used && is_stale_conn_error e)
        (λ _. finish-IsBalanced route.pid w (stale v) at)
        (λ _.
          finish-IsBalanced route.pid w (charge c route.pid route.target e r.now v)
            (charge-inflight c route.pid route.target e r.now v ∙ at))

  shake-Evenly :
      (first used : Bool) (r : Round) (w : World) → Evenly w (shake c route first used r w)
  unfolding shake begun
  shake-Evenly first used r w =
      shaken first used (handshake r) r w (begun route.pid r w) (begun-inflight route.pid r w)

  opened-Evenly :
      (first : Bool) (o : Option Exception) (r : Round) (u w : World)
      → u.inflight ≡ w.inflight
      → Evenly w
          (elim o [ none ↦ shake c route first false r u | some e ↦ not_opened c route e r u ])
  opened-Evenly first none r u w same = λ q. shake-Evenly first false r u q ∙ ap (active q) same
  opened-Evenly first (some e) r u w same =
      if_elim (Evenly w) (is_os e) (λ _ q. ap (active q) same)
        (λ _.
          if_elim (Evenly w) (is_value_error e) (λ _ q. ap (active q) same)
            (λ _ q. ap (active q) same))

  tunnel_round-Evenly :
      (int : Text → Option ℤ) (first : Bool) (r : Round) (w : World)
      → Evenly w (tunnel_round int c route first r w)
  unfolding tunnel_round
  tunnel_round-Evenly int first r w =
      if_elim (Evenly w) route.is_direct
        (λ _.
          if_elim (Evenly w) (length (try_tunnel_host route.target) == 0) (λ _ q. refl)
            (λ _.
              if_elim (Evenly w)
                (not (starts_with (b'[' ∷ []) route.target) && not (contains b':' route.target))
                (λ _ q. refl)
                (λ _.
                  if_elim (Evenly w) (not (is_number (int (port_text route.target)))) (λ _ q. refl)
                    (λ _. opened-Evenly first r.open_error r w w refl))))
        (λ _.
          if_elim (Evenly w) (first && route.conn_pool_enabled && r.pooled)
            (λ _. shake-Evenly first true r w)
            (λ _.
              opened-Evenly first r.open_error r
                (record w { connect_new_conns = w.connect_new_conns + 1 }) w refl))

  -- a round that is the last one
  abbrev Ends : Ending × World → Type 0
  Ends (over result, w) = Unit
  Ends (again, w) = ⊥

  shaken-Ends :
      (used : Bool) (o : Option Exception) (r : Round) (v : World)
      → Ends (elim o [
        | none ↦ (over done, finish route.pid (succeed c route.pid route.target r.ttfb r.now v))
        | some e ↦
            if false && used && is_stale_conn_error e
            then (again, finish route.pid (stale v))
            else (over (raised e), finish route.pid (charge c route.pid route.target e r.now v))
      ])
  shaken-Ends used none r v = tt
  shaken-Ends used (some e) r v = tt

  shake-Ends : (used : Bool) (r : Round) (w : World) → Ends (shake c route false used r w)
  unfolding shake begun
  shake-Ends used r w = shaken-Ends used (handshake r) r (begun route.pid r w)

  opened-Ends :
      (o : Option Exception) (r : Round) (u : World)
      → Ends (elim o [ none ↦ shake c route false false r u | some e ↦ not_opened c route e r u ])
  opened-Ends none r u = shake-Ends false r u
  opened-Ends (some e) r u =
      if_elim Ends (is_os e) (λ _. tt) (λ _. if_elim Ends (is_value_error e) (λ _. tt) (λ _. tt))

  tunnel_round-Ends :
      (int : Text → Option ℤ) (r : Round) (w : World) → Ends (tunnel_round int c route false r w)
  unfolding tunnel_round
  tunnel_round-Ends int r w =
      if_elim Ends route.is_direct
        (λ _.
          if_elim Ends (length (try_tunnel_host route.target) == 0) (λ _. tt)
            (λ _.
              if_elim Ends
                (not (starts_with (b'[' ∷ []) route.target) && not (contains b':' route.target))
                (λ _. tt)
                (λ _.
                  if_elim Ends (not (is_number (int (port_text route.target)))) (λ _. tt)
                    (λ _. opened-Ends r.open_error r w))))
        (λ _. opened-Ends r.open_error r (record w { connect_new_conns = w.connect_new_conns + 1 }))

  result_of : (e : Ending × World) → Ends e → (result : Result) × (last_result e.0 ≡ some result)
  result_of (over result, w) h = (result, refl)
  result_of (again, w) h = absurd h

  -- what is known of an attempt: it has a result, and nothing of it is left in flight
  abbrev pub IsOver : World → Option Result × World → Type 0
  IsOver w r = ((result : Result) × (r.0 ≡ some result)) × IsBalanced w r.1

  next_round-IsOver :
      (int : Text → Option ℤ) (r2 : Round) (w : World) (e : Ending × World)
      → Evenly w e
      → IsOver w (next_round int c route r2 e)
  next_round-IsOver int r2 w (over result, v) even = ((result, refl), even)
  next_round-IsOver int r2 w (again, v) even = (
    result_of (tunnel_round int c route false r2 v) (tunnel_round-Ends int r2 v),
    λ q. tunnel_round-Evenly int false r2 v q ∙ even q,
  )

  -- Whatever the pools and the network do in its rounds, an attempt to open a tunnel comes to a
  -- result after at most one retry, and whatever the result, a retry or a cancellation included,
  -- every proxy then has as many attempts in flight as before.
  pub try_tunnel-IsOver :
      (int : Text → Option ℤ) (r1 r2 : Round) (w : World)
      → IsOver w (try_tunnel int c route r1 r2 w)
  unfolding try_tunnel
  try_tunnel-IsOver int r1 r2 w =
      next_round-IsOver int r2 w (tunnel_round int c route true r1 w)
        (tunnel_round-Evenly int true r1 w)
