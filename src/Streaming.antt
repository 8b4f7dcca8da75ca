-- ===== src/Streaming.antt =====
-- The answer of an upstream on its way to the client (`_stream_upstream_response` and `_hb` of
-- auto_squid/router.py). What `aiter_raw` yields is a list of chunks with whether it ends by raising;
-- `Client` says which waits for the client succeed. A failing `aclose` changes nothing,
-- and the cancellation of the whole request is left out. `int`, `str`, the
-- hexadecimal sizes and UTF-8 are the fields of `Writer`; the names of headers are ASCII.
pub mod Completeness
pub mod Delivery
use auto_squid.Base.{
  ℕ, ◌+◌, Bool, true, false, not, ◌&&◌, ◌||◌, Option, none, some, List, [], ◌∷◌, ◌++◌, ltb, leb,
  if◌then◌else◌, ◌==◌, nat_eq, Text, text_eq, pair_eq, option_eq, length, all, contains, text,
  lower,
}
use auto_squid.Requests.{ℤ, pos, negsuc}
use auto_squid.Chunks.{crlf}

pub record Writer : Type 0 where
  pub int : Text → Option ℤ
  pub str : ℕ → Text
  pub str_int : ℤ → Text
  pub hex : ℕ → Text
  pub utf8 : Text → Text

pub record Upstream : Type 0 where
  pub status_code : ℕ
  pub reason_phrase : Text
  pub http_version : Text
  pub headers : List (Text × Text)
  -- `resp.headers.get('content-length')`, which joins several
  pub content_length : Option Text
  pub chunks : List Text
  pub is_broken : Bool

-- if the head, each chunk and the rest get through; nothing depends on the last chunk
pub record Client : Type 0 where
  pub is_http10 : Bool
  pub takes_head : Bool
  pub takes_chunk : ℕ → Bool
  pub takes_rest : Bool

-- `_hb`
unfoldable pub header_bytes : Writer → Text → Text
header_bytes w v = if all (λ c. ltb c 256) v then v else w.utf8 v

-- `_HOP_BY_HOP_RESPONSE_HEADERS`
abbrev pub hop_by_hop : List Text
hop_by_hop =
    text "transfer-encoding"
    ∷ text "content-length"
    ∷ text "connection"
    ∷ text "keep-alive"
    ∷ text "proxy-connection"
    ∷ text "te"
    ∷ text "trailer"
    ∷ text "upgrade"
    ∷ []

-- 204, 304 and 1xx
abbrev pub has_no_body : ℕ → Bool
has_no_body status = contains status (204 ∷ 304 ∷ []) || ltb status 200

abbrev pub parsed : Writer → Option Text → Option ℤ
parsed w none = none
parsed w (some cl) = w.int cl

-- the length that the upstream promises, if it is of use
unfoldable pub promised_len : Writer → Upstream → Option ℤ
promised_len w u = if has_no_body u.status_code then none else parsed w u.content_length

abbrev pub is_unpromised : Option ℤ → Bool
is_unpromised none = true
is_unpromised (some n) = false

unfoldable pub use_chunked : Writer → Client → Upstream → Bool
unfolding promised_len
use_chunked w client u =
    not client.is_http10 && not (has_no_body u.status_code) && is_unpromised (promised_len w u)

unfoldable pub header_lines : Writer → List (Text × Text) → Text
unfolding header_bytes
header_lines w [] = []
header_lines w ((k, v) ∷ hs) =
    let rest = header_lines w hs in
    if contains (lower k) hop_by_hop
    then rest
    else k ++ b':' ∷ b' ' ∷ (header_bytes w v ++ 13 ∷ 10 ∷ rest)

abbrev pub framing_line : Writer → Bool → Option ℤ → Text
framing_line w true promised = text "Transfer-Encoding: chunked" ++ crlf
framing_line w false none = []
framing_line w false (some n) = text "Content-Length: " ++ (w.str_int n ++ crlf)

-- the status line, the headers and the empty line
unfoldable pub response_head : Writer → Client → Upstream → Text
unfolding header_lines use_chunked
response_head w client u =
    text (if client.is_http10 then "HTTP/1.0 " else "HTTP/1.1 ")
    ++ (w.str u.status_code
        ++ b' '
          ∷ (header_bytes w u.reason_phrase
              ++ 13
                ∷ 10
                ∷ (header_lines w u.headers
                    ++ (framing_line w (use_chunked w client u) (promised_len w u) ++ crlf))))

-- the loop's state: what was written, the buffer unless it was given up, the bytes counted without
-- and with chunks, and whether the client is gone
pub record Pump : Type 0 where
  pub written : Text
  pub buffer : Option Text
  pub streamed : ℕ
  pub total : ℕ
  pub is_gone : Bool

abbrev pub buffered_with : ℕ → Text → Option Text → Option Text
buffered_with limit chunk none = none
buffered_with limit chunk (some b) =
    if leb (length b + length chunk) limit then some (b ++ chunk) else none

abbrev pub framed : Writer → Bool → Text → Text
framed w chunked chunk =
    if chunked then w.hex (length chunk) ++ 13 ∷ 10 ∷ (chunk ++ crlf) else chunk

-- one chunk
abbrev pub pump_chunk : Writer → Client → Bool → ℕ → ℕ → Text → Pump → Pump
pump_chunk w client chunked limit i chunk p = record {
  written = if p.is_gone then p.written else p.written ++ framed w chunked chunk;
  buffer = buffered_with limit chunk p.buffer;
  streamed = if chunked then p.streamed else p.streamed + length chunk;
  total = p.total + length chunk;
  is_gone = p.is_gone || not (client.takes_chunk i);
}

unfoldable pub pump_all : Writer → Client → Bool → ℕ → ℕ → List Text → Pump → Pump
pump_all w client chunked limit i [] p = p
pump_all w client chunked limit i (chunk ∷ chunks) p =
    pump_all w client chunked limit (i + 1) chunks (pump_chunk w client chunked limit i chunk p)

-- after the loop: what was written, and whether streaming failed; a client that is gone when the
-- rest is flushed counts as a failure of the stream
abbrev pub after_loop : Writer → Client → Bool → Pump → Text × Bool
after_loop w client chunked p =
    if p.is_gone
    then (p.written, false)
    else if not client.takes_rest
    then (p.written, true)
    else (if chunked then p.written ++ b'0' ∷ 13 ∷ 10 ∷ 13 ∷ 10 ∷ [] else p.written, false)

abbrev pub keeps_promise : Option ℤ → Text → ℕ → Bool
keeps_promise none method streamed = true
keeps_promise (some (pos n)) method streamed = method == text "HEAD" || streamed == n
keeps_promise (some (negsuc n)) method streamed = method == text "HEAD"

-- what is returned, but for the time, and what was written
pub record Streamed : Type 0 where
  pub sent : Text
  pub buffered : Option Text
  pub total_streamed : ℕ

abbrev pub ended : Writer → Client → Bool → Bool → Pump → Text × Bool
ended w client chunked is_broken p =
    if is_broken then (p.written, true) else after_loop w client chunked p

abbrev pub concluded : Option ℤ → Text → Pump → Text × Bool → Streamed
concluded promised method p (sent, failed) = record {
  sent = sent;
  buffered = if not failed && keeps_promise promised method p.streamed then p.buffer else none;
  total_streamed = p.total;
}

-- the loop begins after the head
abbrev pub begun : Writer → Client → Upstream → Pump
begun w client u = record {
  written = response_head w client u;
  buffer = some [];
  streamed = 0;
  total = 0;
  is_gone = not client.takes_head;
}

-- `_stream_upstream_response`; `limit` is `_stream_cache_limit`
unfoldable pub stream_upstream_response : Writer → Client → ℕ → Text → Upstream → Streamed
unfolding promised_len use_chunked response_head pump_all
stream_upstream_response w client limit method u =
    let chunked = use_chunked w client u in
    let p = pump_all w client chunked limit 0 u.chunks (begun w client u) in
    concluded (promised_len w u) method p (ended w client chunked u.is_broken p)
