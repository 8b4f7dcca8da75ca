-- ===== src/Failures.antt =====
-- What an attempt can raise, and how the router tells it apart (`_classify_error` and
-- `_is_stale_conn_error` of auto_squid/router.py).
use auto_squid.Base.{
  Bool, true, false, ◌||◌, ◌∷◌, ◌++◌, if◌then◌else◌, nat_eq, Text, text_eq, text, starts_with,
  has_infix,
}

-- The classes that the code tells apart: `asyncio.CancelledError`; `asyncio.TimeoutError`; the other
-- `OSError`s, `ssl.SSLError` apart; the `TimeoutException`, `ConnectError` and protocol errors of httpx;
-- `RuntimeError` with its message; `ValueError` and the rest with the names of module and type.
pub data Exception : Type 0 where
  cancelled timed_out os_error ssl_error http_timeout http_connect http_protocol : Exception
  runtime : Text → Exception
  value_error other : Text → Text → Exception

-- the tests on the names, at the end
abbrev pub classify_name : Text → Text → Text
classify_name mod_name type_name =
    let full = mod_name ++ b'.' ∷ type_name in
    if has_infix (text "Timeout") full || has_infix (text "TimeoutError") full
    then text "timeout"
    else if has_infix (text "Connect") full || has_infix (text "ConnectionError") type_name
    then text "connect"
    else if has_infix (text "SSLError") type_name || has_infix (text "TLS") type_name
    then text "tls"
    else if has_infix (text "Protocol") type_name
    then text "protocol"
    else text "other"

-- `_classify_error`, on what its callers pass: no cancellation
unfoldable pub classify_error : Exception → Text
classify_error cancelled = classify_name (text "asyncio.exceptions") (text "CancelledError")
classify_error timed_out = text "timeout"
classify_error os_error = text "connect"
classify_error ssl_error = text "tls"
classify_error http_timeout = text "timeout"
classify_error http_connect = text "connect"
classify_error http_protocol = text "protocol"
classify_error (runtime message) =
    if has_infix (text "upstream returned non-200") message
    then text "http_status"
    else text "protocol"
classify_error (value_error mod_name type_name) = classify_name mod_name type_name
classify_error (other mod_name type_name) = classify_name mod_name type_name

-- `_is_stale_conn_error`
unfoldable pub is_stale_conn_error : Exception → Bool
is_stale_conn_error cancelled = false
is_stale_conn_error timed_out = false
is_stale_conn_error os_error = true
is_stale_conn_error ssl_error = true
is_stale_conn_error http_timeout = false
is_stale_conn_error http_connect = false
is_stale_conn_error http_protocol = false
is_stale_conn_error (runtime message) = starts_with (text "no response from upstream") message
is_stale_conn_error (value_error mod_name type_name) = false
is_stale_conn_error (other mod_name type_name) = false

abbrev pub is_cancelled : Exception → Bool
is_cancelled cancelled = true
is_cancelled timed_out = false
is_cancelled os_error = false
is_cancelled ssl_error = false
is_cancelled http_timeout = false
is_cancelled http_connect = false
is_cancelled http_protocol = false
is_cancelled (runtime message) = false
is_cancelled (value_error mod_name type_name) = false
is_cancelled (other mod_name type_name) = false
