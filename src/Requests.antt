-- ===== src/Requests.antt =====
-- Reading one request of a client (`_handle_one_client_request`, `_is_upgrade_request` and
-- `_normalize_connect_target` of auto_squid/router.py), up to the call that handles it. The reader is
-- the list of the bytes that the client still sends, and the head is those bytes, which are also the
-- code points of their decoding as Latin-1; superscript digits in a port are left out. `int` and
-- `str` on numbers, `int(..., 16)`, the decoding of credentials and the regular expressions of
-- `is_valid_host` are the fields of `Server`. Time-outs are left out.
pub mod Handling
pub mod Boundaries
use auto_squid.Base.{
  ℕ, zero, suc, ◌+◌, ◌-◌, Bool, true, false, not, ◌&&◌, ◌||◌, Option, none, some, List, [], ◌∷◌,
  ◌++◌, map, ltb, leb, if◌then◌else◌, ◌==◌, nat_eq, Text, text_eq, pair_eq, option_eq, length,
  select, contains, text, lower, starts_with, split_once, split_last, strip, is_blank,
}
use auto_squid.Chunks.{crlf, read_line}
use auto_squid.Policies.{all_digits}
use auto_squid.Dict.{Dict, lookup, put}

-- what `int` gives
pub data ℤ : Type 0 where
  pos negsuc : ℕ → ℤ

pub record Server : Type 0 where
  pub auth_enabled : Bool
  pub auth_username : Text
  pub auth_password : Text
  pub decode : Text → Option Text
  pub int : Text → Option ℤ
  pub int16 : Text → Option ℕ
  pub str : ℕ → Text
  pub is_valid_host : Text → Bool

-- what becomes of a request: the connection is closed, an error status is written, an exception is
-- raised, a tunnel is opened, an upgrade is passed on, or the method, the URL, the headers and the
-- body go to `_handle_http_request`; the flags say if the client is older than HTTP/1.1 and if
-- the connection is kept
pub data Verdict : Type 0 where
  closed raised : Verdict
  refused : ℕ → Verdict
  tunnel : Text → Verdict
  upgrade : Text → Dict Text Text → Verdict
  request : Text → Text → Dict Text Text → Text → Bool → Bool → Verdict

-- with whether the request was recorded as activity, and the bytes that are not read yet, where the
-- connection is kept
pub record Outcome : Type 0 where
  pub recorded : Bool
  pub verdict : Verdict
  pub rest : Text

-- the part before the first separator, and the others
unfoldable pub pieces : (ℕ → Bool) → Text → Text × List Text
pieces is_sep [] = ([], [])
pieces is_sep (c ∷ s) =
    let (part, parts) = pieces is_sep s in
    if is_sep c then ([], part ∷ parts) else (c ∷ part, parts)

abbrev pub split : (ℕ → Bool) → Text → List Text
split is_sep s = let (part, parts) = pieces is_sep s in part ∷ parts

abbrev pub is_filled : Text → Bool
is_filled [] = false
is_filled (c ∷ s) = true

-- `split()`
abbrev pub words : Text → List Text
words s = select is_filled (split is_blank s)

-- `str.upper` on the code points below 256, but for the sharp s, the micro sign and the y with a
-- diaeresis, whose capitals stand in none of the words that it is compared with
unfoldable pub upper : Text → Text
upper [] = []
upper (c ∷ s) =
    (if leb b'a' c && leb c b'z' || leb 224 c && leb c 254 && not (c == 247) then c - 32 else c)
    ∷ upper s

abbrev pub or_empty : Option Text → Text
or_empty none = []
or_empty (some v) = v

abbrev pub tidy : Text → Text
tidy t = lower (strip t)

-- the tokens of a header value
unfoldable pub tokens : Option Text → List Text
unfolding pieces
tokens value = select is_filled (map tidy (split (λ c. c == b',' || c == b';') (or_empty value)))

-- `_is_upgrade_request`
unfoldable pub is_upgrade_request : Text → Dict Text Text → Bool
unfolding upper
is_upgrade_request method headers =
    (upper method == text "GET")
    && is_filled (strip (or_empty (lookup (text "upgrade") headers)))
    && contains (text "upgrade") (tokens (lookup (text "connection") headers))

-- the host and the port in a target with a colon or in brackets
abbrev pub host_port : Option (Text × Text) → Text → Option (Text × Text)
host_port none t = some (t, [])
host_port (some (host, port)) t = some (host, port)

abbrev pub after_bracket : Text → Text → Option (Text × Text)
after_bracket host [] = some (host, [])
after_bracket host (c ∷ port) = if c == b':' then some (host, port) else none

abbrev pub bracketed : Option (Text × Text) → Option (Text × Text)
bracketed none = none
bracketed (some (head, rest)) =
    if ltb (length head) 2 then none else after_bracket (head ++ b']' ∷ []) rest

abbrev pub parts_of : Text → Option (Text × Text)
parts_of t =
    if starts_with (b'[' ∷ []) t
    then bracketed (split_once b']' t)
    else host_port (split_last b':' t) t

abbrev pub in_range : Option ℤ → Option ℕ
in_range none = none
in_range (some (negsuc n)) = none
in_range (some (pos n)) = if leb 1 n && leb n 65535 then some n else none

abbrev pub port_of : Server → Text → Option ℕ
port_of server [] = some 443
port_of server (c ∷ s) = if all_digits (c ∷ s) then in_range (server.int (c ∷ s)) else none

abbrev pub rejoin : Server → Text → Option ℕ → Option Text
rejoin server host none = none
rejoin server host (some port) =
    some ((if starts_with (b'[' ∷ []) host then host else lower host) ++ b':' ∷ server.str port)

abbrev pub checked : Server → Option (Text × Text) → Option Text
checked server none = none
checked server (some (host, port)) =
    if server.is_valid_host host then rejoin server host (port_of server port) else none

-- `_normalize_connect_target`
unfoldable pub normalize_connect_target : Server → Text → Option Text
normalize_connect_target server raw_target =
    let t = strip raw_target in
    if length t == 0 || ltb 261 (length t) then none else checked server (parts_of t)

-- the lines of the head after the first, none beyond `_MAX_REQUEST_HEADER_LINES` or
-- `_MAX_REQUEST_HEADER_BYTES`
unfoldable pub read_head : ℕ → Text → ℕ → Text → Option (Text × Text)
unfolding read_line
read_head zero raw n s = none
read_head (suc fuel) raw n s =
    let (h, rest) = read_line s in
    let later = read_head fuel (raw ++ h) (n + 1) rest in
    if length h == 0 || h == crlf || h == 10 ∷ []
    then some (raw, rest)
    else if ltb 100 (n + 1) || ltb 65536 (length (raw ++ h))
    then none
    else later

abbrev pub joined : Text → Option Text → Text → Text
joined k none v = v
joined k (some old) v = old ++ (if k == text "cookie" then text "; " else text ", ") ++ v

abbrev pub add_field : Dict Text Text → Option (Text × Text) → Dict Text Text
add_field headers none = headers
add_field headers (some (k, v)) =
    put (tidy k) (joined (tidy k) (lookup (tidy k) headers) (strip v)) headers

-- the loop over the lines
unfoldable pub add_lines : Dict Text Text → List Text → Dict Text Text
add_lines headers [] = headers
add_lines headers (h ∷ hs) = add_lines (add_field headers (split_once b':' h)) hs

-- where `splitlines` splits; between CR and LF it leaves an empty line more here, without a colon
abbrev pub is_line_end : ℕ → Bool
is_line_end c = leb 10 c && leb c 13 || leb 28 c && leb c 30 || c == 133

unfoldable pub parse_head : Text → Dict Text Text
unfolding add_lines pieces
parse_head raw = add_lines [] (split is_line_end raw)
