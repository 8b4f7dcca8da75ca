-- ===== src/Tests/Answers.antt =====
-- Answers on their way to the client, at concrete inputs.
use auto_squid.Base.{
  ℕ, zero, suc, ◌-◌, ◌≡◌, refl, ap, true, false, Option, none, some, [], ◌∷◌, ◌++◌, arith, nat_eq,
  Text, text_eq, length, all, text, contains,
}
use auto_squid.Requests.{pos}
use auto_squid.Chunks.Framing.{concat, is_hex}
use auto_squid.Streaming.{
  Writer, Upstream, Client, use_chunked, response_head, stream_upstream_response,
}
use auto_squid.Forwarding.{Front, Request, Course, cached, forward_single}
use auto_squid.Forwarding.Caching.{KeepsWhole, forward_single-KeepsWhole}
use auto_squid.Tests.Tuning.{tuner}
use auto_squid.Tests.Responses.{start, host}
use auto_squid.Tests.Upstreams.{world, settings}
use auto_squid.Streaming.Completeness.{IsWhole, stream_upstream_response-IsWhole}
use auto_squid.Streaming.Delivery.{Reads, stream_upstream_response-Reads}

-- sizes as a zero and a row of ones
unfoldable row : ℕ → Text
row zero = []
row (suc n) = b'1' ∷ row n

abbrev digits : ℕ → Text
digits n = b'0' ∷ row n

abbrev count : Text → Option ℕ
count t = some (length t - 1)

abbrev writer : Writer
writer = record {
  int = λ t. some (pos (length t));
  str = digits;
  str_int = λ n. [];
  hex = digits;
  utf8 = λ t. t;
}

length-row : (n : ℕ) → length (row n) ≡ n
unfolding row
length-row zero = refl
length-row (suc n) = ap suc (length-row n)

count-digits : (n : ℕ) → count (digits n) ≡ some n
count-digits n = ap some (omega (arith, length-row n))

all_hex-row : (n : ℕ) → all is_hex (row n) ≡ true
unfolding row
all_hex-row zero = refl
all_hex-row (suc n) = all_hex-row n

abbrev browser : Client
browser = record {
  is_http10 = false;
  takes_head = true;
  takes_chunk = λ i. true;
  takes_rest = true;
}

abbrev page : Upstream
page = record {
  status_code = 200;
  reason_phrase = text "OK";
  http_version = text "HTTP/1.1";
  headers = (text "Server", text "s") ∷ (text "Connection", text "close") ∷ [];
  content_length = none;
  chunks = text "ab" ∷ text "c" ∷ [];
  is_broken = false;
}

stream_upstream_response-IsWhole_example :
    IsWhole writer 100
      (text "GET")
      page
      (stream_upstream_response writer browser 100 (text "GET") page).buffered
stream_upstream_response-IsWhole_example =
    stream_upstream_response-IsWhole writer browser 100 (text "GET") page

stream_upstream_response-Reads_example :
    (tail : Text) × ((stream_upstream_response writer browser 100 (text "GET") page).sent
      ≡ response_head writer browser page ++ tail)
    × Reads count (use_chunked writer browser page) tail page.chunks
unfolding concat row
stream_upstream_response-Reads_example =
    stream_upstream_response-Reads writer count browser 100 (text "GET") page
      (refl, λ i. refl, refl) refl refl count-digits all_hex-row (omega arith, (omega arith, tt))
      (omega arith)

-- the body is kept whole
buffered_page :
    (stream_upstream_response writer browser 100 (text "GET") page).buffered ≡ some (text "abc")
unfolding stream_upstream_response auto_squid.Base.contains
buffered_page = refl

abbrev front : Front
front = record {
  world = world;
  cache = start;
  tuner = tuner;
  sticky_cache_hits = 0;
  domain_cache_hits = 0;
  slow_log = 0;
  single_send_slow_logged = 0;
  single_send_fail_logged = 0;
}

abbrev ask : Request
ask = record {
  method = text "GET";
  url = text "a";
  headers = [];
  domain = text "a";
  retry_on_5xx = true;
}

abbrev course : Course
course = record {
  sent = none;
  ttfb = 40;
  elapsed = 41;
  upstream = page;
  body_duration = 7;
  now = 9;
  pick = 0;
}

forward_single-KeepsWhole_example :
    KeepsWhole host writer browser 100 ask course start
      (forward_single host writer browser 100 settings ask cached (text "p") course front).1.cache
forward_single-KeepsWhole_example =
    forward_single-KeepsWhole host writer browser 100 settings ask cached (text "p") course front
