-- ===== src/Attempts/Tunnels.antt =====
-- The attempt to open a tunnel: `_try_tunnel` with its one retry.
use auto_squid.Base.{
  ℕ, ◌+◌, Bool, true, false, not, ◌&&◌, Option, none, some, [], ◌∷◌, ◌++◌, if◌then◌else◌, ◌==◌,
  nat_eq, Text, text_eq, pair_eq, option_eq, length, drop, contains, text, starts_with, split_once,
  split_last, strip,
}
use auto_squid.Requests.{ℤ}
use auto_squid.Metrics.{record_stale_conn}
use auto_squid.Selector.{record_failure}
use auto_squid.Failures.{
  Exception, cancelled, timed_out, os_error, ssl_error, http_timeout, http_connect, http_protocol,
  runtime, value_error, other, classify_error, is_stale_conn_error,
}
use auto_squid.Attempts.{
  World, Settings, Result, done, raised, start, finish, count_attempt, succeed, charge,
}

-- `_try_tunnel_host`
abbrev pub host_of : Text → Option (Text × Text) → Text
host_of target none = target
host_of target (some (host, rest)) = host

abbrev pub within_brackets : Text → Option (Text × Text) → Text
within_brackets target none = target
within_brackets target (some ([], rest)) = target
within_brackets target (some (c ∷ host, rest)) = host

unfoldable pub try_tunnel_host : Text → Text
try_tunnel_host target =
    if not (contains b':' target)
    then target
    else if starts_with (b'[' ∷ []) target
    then within_brackets target (split_once b']' target)
    else host_of target (split_last b':' target)

abbrev pub after_colon : Option (Text × Text) → Text
after_colon none = []
after_colon (some (host, port)) = port

abbrev pub after_bracket : Text → Option (Text × Text) → Text
after_bracket target none = drop 1 target
after_bracket target (some (host, port)) = drop 1 port

-- the port of a target that has one
unfoldable pub port_text : Text → Text
port_text target =
    if starts_with (b'[' ∷ []) target
    then after_bracket target (split_once b']' target)
    else after_colon (split_last b':' target)

-- what the network does to one round: if a pool had a connection, what opening a new one raises,
-- what sending CONNECT raises, the line that answers or what reading it raises, and what reading the
-- other lines raises
pub record Round : Type 0 where
  pub pooled : Bool
  pub open_error : Option Exception
  pub drain_error : Option Exception
  pub line_error : Option Exception
  pub line : Text
  pub head_error : Option Exception
  pub ttfb : ℕ
  pub now : ℕ

pub record Route : Type 0 where
  pub pid : Text
  pub target : Text
  pub is_direct : Bool
  pub conn_pool_enabled : Bool

-- how a round ends: with a result, or with the retry
pub data Ending : Type 0 where
  over : Result → Ending
  again : Ending

-- the second word of the line, if the first begins with `HTTP/`; `split(' ', 2)`
abbrev pub first_word : Text → Option (Text × Text) → Text
first_word rest none = rest
first_word rest (some (w, more)) = w

abbrev pub code_of : Option (Text × Text) → Text
code_of none = []
code_of (some (version, rest)) =
    if starts_with (text "HTTP/") version then first_word rest (split_once b' ' rest) else []

-- what the answer raises, if it is not 200
unfoldable pub judge_line : Text → Option Exception
judge_line [] = some (runtime (text "no response from upstream"))
judge_line (c ∷ line) =
    if code_of (split_once b' ' (c ∷ line)) == text "200"
    then none
    else some (runtime (text "upstream returned non-200 for CONNECT: " ++ strip (c ∷ line)))

-- the first exception of the handshake after the connection
abbrev pub or_next : Option Exception → Option Exception → Option Exception
or_next none next = next
or_next (some e) next = some e

-- the lines of the head are read in either case, and a refusal is raised after them
abbrev pub after_line : Round → Option Exception → Option Exception
after_line r refusal = or_next r.head_error refusal

abbrev pub of_line : Round → Text → Option Exception
of_line r [] = judge_line []
of_line r (c ∷ line) = after_line r (judge_line (c ∷ line))

unfoldable pub handshake : Round → Option Exception
unfolding judge_line
handshake r = or_next r.drain_error (or_next r.line_error (of_line r r.line))

-- CONNECT was sent
abbrev pub is_sent : Round → Bool
is_sent r = elim r.drain_error [ none ↦ true | some e ↦ false ]

abbrev pub stale : World → World
stale w = record w {
  selector = record w.selector { metrics = record_stale_conn w.selector.metrics };
}

-- the handshake on a connection
unfoldable pub shake : Settings → Route → Bool → Bool → Round → World → Ending × World
unfolding handshake
shake c route first used r w =
    let v = if is_sent r then count_attempt route.pid (start route.pid w) else start route.pid w in
    elim (handshake r) [
      | none ↦ (over done, finish route.pid (succeed c route.pid route.target r.ttfb r.now v))
      | some e ↦
          if first && used && is_stale_conn_error e
          then (again, finish route.pid (stale v))
          else (over (raised e), finish route.pid (charge c route.pid route.target e r.now v))
    ]

-- an `OSError`, which a time-out is too
abbrev pub is_os : Exception → Bool
is_os timed_out = true
is_os os_error = true
is_os ssl_error = true
is_os cancelled = false
is_os http_timeout = false
is_os http_connect = false
is_os http_protocol = false
is_os (runtime message) = false
is_os (value_error mod_name type_name) = false
is_os (other mod_name type_name) = false

abbrev pub is_value_error : Exception → Bool
is_value_error (value_error mod_name type_name) = true
is_value_error (other mod_name type_name) = false
is_value_error (runtime message) = false
is_value_error cancelled = false
is_value_error timed_out = false
is_value_error os_error = false
is_value_error ssl_error = false
is_value_error http_timeout = false
is_value_error http_connect = false
is_value_error http_protocol = false

abbrev pub open_kind : Exception → Text
open_kind e = if classify_error e == text "timeout" then text "timeout" else text "connect"

-- a target without a host or port, or one that cannot be encoded, is charged and raised again
abbrev pub bad_target : Settings → Route → Exception → Round → World → Ending × World
bad_target c route e r w = (
  over (raised e),
  record w {
    selector =
        record_failure c.circuit c.concurrency route.pid (some (text "other")) (some route.target)
          r.now w.selector;
  },
)

-- opening raised: an `OSError` is charged and wrapped in an error whose message is shortened here,
-- and what is neither that nor a `ValueError` is passed on; no pool had a connection then
abbrev pub not_opened : Settings → Route → Exception → Round → World → Ending × World
not_opened c route e r w =
    if is_os e
    then (
      over (raised (runtime (text "connect timed out or failed"))),
      record w {
        selector =
            record_failure c.circuit c.concurrency route.pid (some (open_kind e))
              (some route.target) r.now w.selector;
      },
    )
    else if is_value_error e
    then bad_target c route e r w
    else (over (raised e), w)

abbrev pub opened : Settings → Route → Bool → Round → World → Ending × World
opened c route first r w = elim r.open_error [
  | none ↦ shake c route first false r w
  | some e ↦ not_opened c route e r w
]

-- the port of a direct target; `int` is an argument, and a target without a colon has no second part
abbrev pub is_number : Option ℤ → Bool
is_number none = false
is_number (some n) = true

abbrev pub direct : (Text → Option ℤ) → Settings → Route → Bool → Round → World → Ending × World
direct int c route first r w =
    if length (try_tunnel_host route.target) == 0
    then bad_target c route (value_error (text "builtins") (text "ValueError")) r w
    else if not (starts_with (b'[' ∷ []) route.target) && not (contains b':' route.target)
    then (over (raised (other (text "builtins") (text "IndexError"))), w)
    else if not (is_number (int (port_text route.target)))
    then bad_target c route (value_error (text "builtins") (text "ValueError")) r w
    else opened c route first r w

-- one round of the loop
unfoldable pub tunnel_round :
    (Text → Option ℤ) → Settings → Route → Bool → Round → World → Ending × World
unfolding shake try_tunnel_host port_text
tunnel_round int c route first r w =
    if route.is_direct
    then direct int c route first r w
    else if first && route.conn_pool_enabled && r.pooled
    then shake c route first true r w
    else opened c route first r (record w { connect_new_conns = w.connect_new_conns + 1 })

-- the second round has no other after it
abbrev pub last_result : Ending → Option Result
last_result (over result) = some result
last_result again = none

abbrev pub next_round :
    (Text → Option ℤ) → Settings → Route → Round → Ending × World → Option Result × World
next_round int c route r (over result, w) = (some result, w)
next_round int c route r (again, w) =
    let (ending, v) = tunnel_round int c route false r w in (last_result ending, v)

-- `_try_tunnel`; `none` would be the end of the loop without a result
unfoldable pub try_tunnel :
    (Text → Option ℤ) → Settings → Route → Round → Round → World → Option Result × World
unfolding tunnel_round
try_tunnel int c route r1 r2 w = next_round int c route r2 (tunnel_round int c route true r1 w)
