-- ===== src/Requests/Boundaries.antt =====
-- Where a forwarded request ends.
use auto_squid.Auth.{check_auth}
use auto_squid.Base.{
  ℕ, ◌≤◌, ◌≡◌, sym, true, false, not, ◌&&◌, Option, none, some, [], arith, if_elim, subst, ◌==◌,
  nat_eq, Text, text_eq, pair_eq, option_eq, length, all, contains, text, refl, ap, ◌∙◌, Bool, ◌∷◌,
  zero, suc, List, ltb, take, text_beq,
}
use auto_squid.Dict.Laws.{lookup-put, kept}
use auto_squid.Chunks.{max_body, read_line, read_exactly, read_chunked_body}
use auto_squid.Chunks.Limits.{read_chunked_body_bounded}
use auto_squid.Requests.{
  ℤ, pos, negsuc, Server, Verdict, closed, raised, refused, tunnel, upgrade, request, Outcome,
  upper, tokens, is_upgrade_request, normalize_connect_target, read_head, parse_head, words,
}
use auto_squid.Requests.Handling.{
  invalidating_methods, keeps_alive, dispatch, with_chunks, with_body, content_length, read_body,
  handle_message, connect, second, handle_line, handle_parts, after_head, handle_one_client_request,
  is_unsized, lets_in,
}
use auto_squid.Dict.{Dict, lookup, put}

-- the length that the headers announce is that of the body
abbrev pub Sized : Server → Text → Text → Option Text → Type 0
Sized server method body none = (body ≡ []) × (contains (upper method) invalidating_methods ≡ false)
Sized server method body (some cl) = server.int cl ≡ some (pos (length body))

abbrev pub Unencoded : Dict Text Text → Type 0
Unencoded headers =
    all (λ t. t == text "chunked") (tokens (lookup (text "transfer-encoding") headers)) ≡ true

-- the body agrees with the headers and is within the limit, no other encoding is named, and an old
-- client's connection is not kept
abbrev pub IsDelimited : Server → Text → Dict Text Text → Text → Bool → Bool → Type 0
IsDelimited server method headers body old kept =
    Sized server method body (lookup (text "content-length") headers)
    × (length body ≤ max_body)
    × Unencoded headers
    × ((kept && old) ≡ false)

-- what holds of a request that goes to `_handle_http_request`
abbrev Delimited : Server → Verdict → Type 0
Delimited server closed = Unit
Delimited server raised = Unit
Delimited server (refused status) = Unit
Delimited server (tunnel target) = Unit
Delimited server (upgrade url headers) = Unit
Delimited server (request method url headers body old kept) =
    IsDelimited server method headers body old kept

keeps_alive-old :
    (version : Text) (headers : Dict Text Text)
    → (keeps_alive version headers && not (upper version == text "HTTP/1.1")) ≡ false
unfolding keeps_alive
keeps_alive-old version headers = ground arith

dispatch-Delimited :
    (server : Server) (method url version : Text) (headers : Dict Text Text) (body : Text)
    → Sized server method body (lookup (text "content-length") headers)
    → length body ≤ max_body
    → Unencoded headers
    → Delimited server (dispatch method url version headers body)
dispatch-Delimited server method url version headers body sized le te =
    if_elim (Delimited server) (is_upgrade_request method headers) (λ _. tt)
      (λ _. (sized, le, te, keeps_alive-old version headers))

empty_lem : (body : Text) → length body ≡ 0 → body ≡ []
empty_lem [] h = refl
empty_lem (c ∷ body) h = absurd (omega (arith, h))

-- a length that was announced, or none where none is needed
Sized_lem :
    (server : Server) (method body : Text) (n : ℕ) (cl : Option Text)
    → length body ≡ n
    → content_length server cl ≡ some (pos n)
    → (is_unsized cl && contains (upper method) invalidating_methods) ≡ false
    → Sized server method body cl
Sized_lem server method body n none len at safe = (empty_lem body (grind (arith, len, at)), safe)
Sized_lem server method body n (some cl) len at safe = at ∙ ap (λ m. some (pos m)) (sym len)

length-take : (n : ℕ) (s : Text) → n ≤ length s → length (take n s) ≡ n
length-take zero s le = refl
length-take (suc n) [] le = absurd (omega (arith, le))
length-take (suc n) (c ∷ s) le = ap suc (length-take n s (omega (arith, le)))

length-read_exactly :
    (n : ℕ) (s body rest : Text) → read_exactly n s ≡ some (body, rest) → length body ≡ n
unfolding read_exactly
length-read_exactly n s body rest at =
    if_elim (λ o. o ≡ some (body, rest) → length body ≡ n) (ltb (length s) n)
      (λ _ none_at. absurd (grind (arith, none_at)))
      (λ long at. grind (arith, at, length-take n s (ground (arith, long)))) at

module _ (server : Server) (method url version : Text) (headers : Dict Text Text) (s : Text)
    (te : Unencoded headers) where
  -- what is forwarded, if anything, is delimited
  abbrev Passed : Verdict × Text → Type 0
  Passed r = Delimited server r.0

  with_chunks-Delimited :
      (o : Option (Text × Text))
      → ((n : ℕ) → server.int (server.str n) ≡ some (pos n))
      → read_chunked_body server.int16 s ≡ o
      → Delimited server (with_chunks server method url version headers s o).0
  unfolding text_beq
  with_chunks-Delimited none undo at = tt
  with_chunks-Delimited (some (body, rest)) undo at =
      let length_text = server.str (length body) in
      dispatch-Delimited server method url version (put (text "content-length") length_text headers)
        body
        (subst (Sized server method body)
          (sym (lookup-put (text "content-length") (text "content-length") length_text headers))
          (undo (length body)))
        (read_chunked_body_bounded server.int16 s body rest at)
        (subst (λ v. all (λ t. t == text "chunked") (tokens v) ≡ true)
          (sym (lookup-put (text "content-length") (text "transfer-encoding") length_text headers))
          te)

  with_body-Delimited :
      (n : ℕ) (o : Option (Text × Text))
      → read_exactly n s ≡ o
      → n ≤ max_body
      → content_length server (lookup (text "content-length") headers) ≡ some (pos n)
      → (is_unsized (lookup (text "content-length") headers)
          && contains (upper method) invalidating_methods)
        ≡ false
      → Delimited server (with_body method url version headers s o).0
  with_body-Delimited n none at le len safe = tt
  with_body-Delimited n (some (body, rest)) at le len safe =
      let size = length-read_exactly n s body rest at in
      dispatch-Delimited server method url version headers body
        (Sized_lem server method body n (lookup (text "content-length") headers) size len safe)
        (omega (arith, size, le)) te

  read_body-Delimited :
      (chunked : Bool) (o : Option ℤ)
      → ((n : ℕ) → server.int (server.str n) ≡ some (pos n))
      → content_length server (lookup (text "content-length") headers) ≡ o
      → Delimited server (read_body server method url version headers s chunked o).0
  unfolding read_body
  read_body-Delimited chunked none undo at = tt
  read_body-Delimited chunked (some (negsuc n)) undo at = tt
  read_body-Delimited true (some (pos n)) undo at =
      if_elim Passed (ltb max_body n) (λ _. tt)
        (λ _.
          if_elim Passed
            (is_unsized (lookup (text "content-length") headers)
              && false
              && contains (upper method) invalidating_methods)
            (λ _. tt) (λ _. with_chunks-Delimited (read_chunked_body server.int16 s) undo refl))
  read_body-Delimited false (some (pos n)) undo at =
      if_elim Passed (ltb max_body n) (λ _. tt)
        (λ fits.
          if_elim Passed
            (is_unsized (lookup (text "content-length") headers)
              && true
              && contains (upper method) invalidating_methods)
            (λ _. tt)
            (λ sized.
              with_body-Delimited n (read_exactly n s) refl (ground (arith, fits)) at
                (ground (arith, sized))))

handle_message-Delimited :
    (server : Server) (method url version : Text) (headers : Dict Text Text) (s : Text)
    → ((n : ℕ) → server.int (server.str n) ≡ some (pos n))
    → Delimited server (handle_message server method url version headers s).0
unfolding handle_message
handle_message-Delimited server method url version headers s undo =
    let te_tokens = tokens (lookup (text "transfer-encoding") headers) in
    if_elim (λ (r : Verdict × Text). Delimited server r.0)
      (not (all (λ t. t == text "chunked") te_tokens)) (λ _. tt)
      (λ te.
        read_body-Delimited server method url version headers s (ground (arith, te))
          (contains (text "chunked") te_tokens)
          (content_length server (lookup (text "content-length") headers)) undo refl)

connect-Delimited : (server : Server) (o : Option Text) → Delimited server (connect o)
connect-Delimited server none = tt
connect-Delimited server (some target) = tt

handle_line-Delimited :
    (server : Server) (parts : List Text) (headers : Dict Text Text) (s : Text)
    → ((n : ℕ) → server.int (server.str n) ≡ some (pos n))
    → Delimited server (handle_line server parts headers s).0
handle_line-Delimited server [] headers s undo = tt
handle_line-Delimited server (a ∷ []) headers s undo = tt
handle_line-Delimited server (a ∷ b ∷ []) headers s undo = tt
handle_line-Delimited server (a ∷ b ∷ c ∷ []) headers s undo =
    handle_message-Delimited server a b c headers s undo
handle_line-Delimited server (a ∷ b ∷ c ∷ d ∷ more) headers s undo = tt

handle_parts-Delimited :
    (server : Server) (parts : List Text) (headers : Dict Text Text) (s : Text)
    → ((n : ℕ) → server.int (server.str n) ≡ some (pos n))
    → Delimited server (handle_parts server parts headers s).0
unfolding handle_parts
handle_parts-Delimited server [] headers s undo = tt
handle_parts-Delimited server (command ∷ more) headers s undo =
    if_elim (λ (r : Verdict × Text). Delimited server r.0) (upper command == text "CONNECT")
      (λ _. connect-Delimited server (normalize_connect_target server (second more)))
      (λ _. handle_line-Delimited server (command ∷ more) headers s undo)

after_head-Delimited :
    (server : Server) (first s : Text) (o : Option (Text × Text))
    → ((n : ℕ) → server.int (server.str n) ≡ some (pos n))
    → Delimited server (after_head server first s o).verdict
after_head-Delimited server first s none undo = tt
after_head-Delimited server first s (some (raw, rest)) undo =
    if_elim (λ (r : Outcome). Delimited server r.verdict)
      (server.auth_enabled
        && not (
            lets_in (
              check_auth server.decode (parse_head raw) true server.auth_username
                server.auth_password)))
      (λ _. tt) (λ _. handle_parts-Delimited server (words first) (parse_head raw) rest undo)

verdict-Delimited :
    (server : Server) (s : Text)
    → ((n : ℕ) → server.int (server.str n) ≡ some (pos n))
    → Delimited server (handle_one_client_request server s).verdict
unfolding handle_one_client_request
verdict-Delimited server s undo =
    let (line, rest) = read_line s in
    if_elim (λ (r : Outcome). Delimited server r.verdict) (length line == 0) (λ _. tt)
      (λ _. after_head-Delimited server line rest (read_head 101 [] 0 rest) undo)

-- A request that is handed to `_handle_http_request` has an unambiguous end, whatever bytes the client
-- sent and provided that `int` undoes `str`: its `Content-Length` reads as the length of the body that
-- goes with it, or it has none, the body is empty and the method is not a writing one. The body has at
-- most `max_body` bytes, no transfer encoding but `chunked` was named, and the connection is not kept
-- for a client older than HTTP/1.1. Upgrades, which take another way, are not covered.
pub handle_one_client_request-Delimited :
    (server : Server) (s method url : Text) (headers : Dict Text Text) (body : Text)
    (old kept : Bool)
    → ((n : ℕ) → server.int (server.str n) ≡ some (pos n))
    → (handle_one_client_request server s).verdict ≡ request method url headers body old kept
    → IsDelimited server method headers body old kept
handle_one_client_request-Delimited server s method url headers body old kept undo at =
    subst (Delimited server) at (verdict-Delimited server s undo)
