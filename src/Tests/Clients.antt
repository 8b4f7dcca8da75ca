-- ===== src/Tests/Clients.antt =====
-- What clients send, at concrete inputs.
use auto_squid.Auth.{allowed, check_auth, find_header}
use auto_squid.Auth.Credentials.{Presents, check_auth_sound, check_auth_complete}
use auto_squid.Policies.{Policy, Site, policy_candidate_pids, prep_http, build_racing_tasks_http}
use auto_squid.Policies.Subsets.{AllPermitted, prep_http-Each}
use auto_squid.Requests.{ℤ, pos, Server, request}
use auto_squid.Requests.Handling.{handle_one_client_request}
use auto_squid.Requests.Boundaries.{IsDelimited, handle_one_client_request-Delimited}
use auto_squid.Chunks.{read_chunked_body}
use auto_squid.Chunks.Framing.{encode, concat, is_hex, read_chunked_body-encode}
use auto_squid.Base.{
  ◌≡◌, refl, true, Option, none, some, List, [], ◌∷◌, ◌++◌, nat_eq, Text, text_eq, text_beq,
  contains, text, lower, false, ℕ, zero, suc, ◌-◌, ap, arith, length, all, select, split_once,
  strip,
}
use auto_squid.Dict.{Dict, lookup, put}

-- a decoder that undoes the encoder that puts an `x` in front
abbrev decode_x : Text → Option Text
decode_x [] = none
decode_x (c ∷ t) = some t

abbrev encode_x : Text → Text
encode_x t = b'x' ∷ t

abbrev hello : List (Text × Text)
hello =
    (text "Host", text "h")
    ∷ (text "proxy-Authorization", text "Basic" ++ b' ' ∷ encode_x (text "bob" ++ b':' ∷ text "pw"))
    ∷ []

check_auth_complete_example : check_auth decode_x hello true (text "bob") (text "pw") ≡ allowed
unfolding lower text_beq contains
check_auth_complete_example =
    check_auth_complete decode_x encode_x ((text "Host", text "h") ∷ []) []
      (text "proxy-Authorization") (text "Basic") (text "bob") (text "pw") (λ t. refl) refl refl
      refl refl refl refl refl

check_auth_sound_example :
    (header : Text) × (find_header hello none ≡ some header)
    × Presents decode_x (text "bob") (text "pw") header
check_auth_sound_example =
    check_auth_sound decode_x hello (text "bob") (text "pw") check_auth_complete_example

abbrev europe : Policy
europe = record {
  domain_exact = text "a.eu" ∷ [];
  domain_suffix = [];
  tags = (text "zone", text "eu") ∷ [];
  ids = [];
}

abbrev site : Site
site = record {
  policies = europe ∷ [];
  policy_regexes = [];
  get = λ pid. some (record { id = pid; tags = (text "zone", pid) ∷ [] });
  has_quality = true;
  max_retries = 3;
  stagger_initial = 1;
  enable_local_racing = true;
  is_local_open = false;
}

abbrev narrowed : List Text
narrowed = policy_candidate_pids site (text "A.eu") (text "eu" ∷ text "us" ∷ [])

prep_http-Each_example :
    AllPermitted site (text "A.eu") (prep_http site narrowed (text "A.eu") true).0
    × AllPermitted site (text "A.eu") (prep_http site narrowed (text "A.eu") true).1
    × AllPermitted site (text "A.eu") (build_racing_tasks_http site narrowed (text "A.eu") true)
prep_http-Each_example = prep_http-Each site (text "eu" ∷ text "us" ∷ []) (text "A.eu") true

-- sizes written as rows of ones
ones : ℕ → Text
ones zero = b'1' ∷ []
ones (suc n) = b'1' ∷ ones n

abbrev count_ones : Text → Option ℕ
count_ones t = some (length t - 1)

length-ones : (n : ℕ) → length (ones n) ≡ suc n
unfolding ones
length-ones zero = refl
length-ones (suc n) = ap suc (length-ones n)

all_hex-ones : (n : ℕ) → all is_hex (ones n) ≡ true
unfolding ones
all_hex-ones zero = refl
all_hex-ones (suc n) = all_hex-ones n

count_ones-ones : (n : ℕ) → count_ones (ones n) ≡ some n
count_ones-ones n = ap some (omega (arith, length-ones n))

read_chunked_body-encode_example :
    read_chunked_body count_ones (encode ones (text "ab" ∷ text "c" ∷ []) (text "GET"))
    ≡ some (text "abc", text "GET")
unfolding concat
read_chunked_body-encode_example =
    read_chunked_body-encode count_ones ones (text "ab" ∷ text "c" ∷ []) (text "GET")
      count_ones-ones all_hex-ones (omega arith, (omega arith, tt)) (omega arith)

-- a number is written as a row of ones after the first
abbrev server : Server
server = record {
  auth_enabled = false;
  auth_username = [];
  auth_password = [];
  decode = decode_x;
  int = λ t. some (pos (length t - 1));
  int16 = count_ones;
  str = ones;
  is_valid_host = λ h. true;
}

int-str : (n : ℕ) → server.int (server.str n) ≡ some (pos n)
int-str n = ap (λ m. some (pos m)) (omega (arith, length-ones n))

-- a chunked message with the next request behind it
abbrev wire : Text
wire =
    text "PUT /x HTTP/1.1"
    ++ 13 ∷ 10 ∷ text "transfer-encoding: Chunked"
    ++ 13 ∷ 10 ∷ 13 ∷ 10 ∷ encode ones (text "ab" ∷ []) (text "GET")

abbrev wire_headers : Dict Text Text
wire_headers =
    (text "transfer-encoding", text "Chunked") ∷ (text "content-length", server.str 2) ∷ []

-- the body is read and the rest is left
handle_wire :
    ((handle_one_client_request server wire).verdict
      ≡ request (text "PUT") (text "/x") wire_headers (text "ab") false true)
    × ((handle_one_client_request server wire).rest ≡ text "GET")
unfolding handle_one_client_request encode text_beq auto_squid.Base.select
    auto_squid.Requests.pieces auto_squid.Requests.upper auto_squid.Requests.tokens lower
    auto_squid.Base.strip auto_squid.Dict.lookup auto_squid.Requests.parse_head
    auto_squid.Base.split_once auto_squid.Dict.put contains read_chunked_body ones
    auto_squid.Base.strip_bytes auto_squid.Requests.is_upgrade_request
    auto_squid.Requests.Handling.keeps_alive
handle_wire = (refl, refl)

handle_one_client_request-Delimited_example :
    IsDelimited server (text "PUT") wire_headers (text "ab") false true
handle_one_client_request-Delimited_example =
    handle_one_client_request-Delimited server wire (text "PUT") (text "/x") wire_headers
      (text "ab") false true int-str handle_wire.0
