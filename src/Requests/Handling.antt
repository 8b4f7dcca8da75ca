-- ===== src/Requests/Handling.antt =====
-- The steps of `_handle_one_client_request` (auto_squid/router.py) after the head: credentials, request
-- line, transfer encoding, length and body.
use auto_squid.Base.{
  Bool, true, false, not, ◌&&◌, Option, none, some, List, [], ◌∷◌, map, ltb, if◌then◌else◌, ◌==◌,
  nat_eq, Text, text_eq, pair_eq, option_eq, length, all, contains, text,
}
use auto_squid.Chunks.{max_body, read_line, read_exactly, read_chunked_body}
use auto_squid.Auth.{Answer, allowed, required, unsupported, failed, malformed, check_auth}
use auto_squid.Requests.{
  ℤ, pos, negsuc, Server, Verdict, closed, raised, refused, tunnel, upgrade, request, Outcome,
  split, words, upper, or_empty, tidy, tokens, is_upgrade_request, normalize_connect_target,
  read_head, parse_head,
}
use auto_squid.Dict.{Dict, lookup, put}

-- `_INVALIDATING_METHODS`
abbrev pub invalidating_methods : List Text
invalidating_methods = text "POST" ∷ text "PUT" ∷ text "DELETE" ∷ text "PATCH" ∷ []

-- whether the connection is kept after the answer
unfoldable pub keeps_alive : Text → Dict Text Text → Bool
unfolding upper
keeps_alive version headers =
    (upper version == text "HTTP/1.1")
    && not (
        contains (text "close")
          (map tidy (split (λ c. c == b',') (or_empty (lookup (text "connection") headers)))))

-- the body is read
abbrev pub dispatch : Text → Text → Text → Dict Text Text → Text → Verdict
dispatch method url version headers body =
    if is_upgrade_request method headers
    then upgrade url headers
    else request method url headers body (not (upper version == text "HTTP/1.1"))
        (keeps_alive version headers)

abbrev pub with_chunks :
    Server → Text → Text → Text → Dict Text Text → Text → Option (Text × Text) → Verdict × Text
with_chunks server method url version headers s none = (refused 400, s)
with_chunks server method url version headers s (some (body, rest)) = (
  dispatch method url version (put (text "content-length") (server.str (length body)) headers) body,
  rest,
)

abbrev pub with_body :
    Text → Text → Text → Dict Text Text → Text → Option (Text × Text) → Verdict × Text
with_body method url version headers s none = (raised, s)
with_body method url version headers s (some (body, rest)) =
    (dispatch method url version headers body, rest)

abbrev pub is_unsized : Option Text → Bool
is_unsized none = true
is_unsized (some v) = false

-- `int(cl) if cl is not None else 0`
abbrev pub content_length : Server → Option Text → Option ℤ
content_length server none = some (pos 0)
content_length server (some cl) = server.int cl

-- the length is known to be a number
unfoldable pub read_body :
    Server → Text → Text → Text → Dict Text Text → Text → Bool → Option ℤ → Verdict × Text
read_body server method url version headers s chunked none = (refused 400, s)
read_body server method url version headers s chunked (some (negsuc n)) = (refused 413, s)
read_body server method url version headers s chunked (some (pos n)) =
    if ltb max_body n
    then (refused 413, s)
    else if is_unsized (lookup (text "content-length") headers)
        && not chunked
        && contains (upper method) invalidating_methods
    then (refused 411, s)
    else if chunked
    then with_chunks server method url version headers s (read_chunked_body server.int16 s)
    else with_body method url version headers s (read_exactly n s)

-- the request line has three words
unfoldable pub handle_message : Server → Text → Text → Text → Dict Text Text → Text → Verdict × Text
unfolding read_body
handle_message server method url version headers s =
    let te_tokens = tokens (lookup (text "transfer-encoding") headers) in
    if not (all (λ t. t == text "chunked") te_tokens)
    then (refused 501, s)
    else read_body server method url version headers s (contains (text "chunked") te_tokens)
        (content_length server (lookup (text "content-length") headers))

abbrev pub connect : Option Text → Verdict
connect none = refused 400
connect (some target) = tunnel target

abbrev pub second : List Text → Text
second [] = []
second (target ∷ more) = target

abbrev pub handle_line : Server → List Text → Dict Text Text → Text → Verdict × Text
handle_line server (method ∷ url ∷ version ∷ []) headers s =
    handle_message server method url version headers s
handle_line server parts headers s = (refused 400, s)

-- the request line, split into words
unfoldable pub handle_parts : Server → List Text → Dict Text Text → Text → Verdict × Text
unfolding handle_message
handle_parts server [] headers s = (closed, s)
handle_parts server (command ∷ more) headers s =
    if upper command == text "CONNECT"
    then (connect (normalize_connect_target server (second more)), s)
    else handle_line server (command ∷ more) headers s

abbrev pub lets_in : Answer → Bool
lets_in allowed = true
lets_in required = false
lets_in unsupported = false
lets_in failed = false
lets_in malformed = false

abbrev pub recorded_as : Verdict × Text → Outcome
recorded_as (verdict, rest) = record { recorded = true; verdict = verdict; rest = rest }

-- the head is read; `check_auth` sees the headers in their order
abbrev pub after_head : Server → Text → Text → Option (Text × Text) → Outcome
after_head server first s none = record { recorded = false; verdict = raised; rest = s }
after_head server first s (some (raw, rest)) =
    if server.auth_enabled
      && not (
          lets_in (
            check_auth server.decode (parse_head raw) true server.auth_username
              server.auth_password))
    then record { recorded = false; verdict = refused 407; rest = rest }
    else recorded_as (handle_parts server (words first) (parse_head raw) rest)

-- `_handle_one_client_request`
unfoldable pub handle_one_client_request : Server → Text → Outcome
unfolding read_line handle_parts read_head
handle_one_client_request server s =
    let (line, rest) = read_line s in
    if length line == 0
    then record { recorded = false; verdict = closed; rest = rest }
    else after_head server line rest (read_head 101 [] 0 rest)
