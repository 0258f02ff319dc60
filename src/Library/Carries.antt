-- ===== src/Library/Carries.antt =====
-- A session of the client of tema3: what each request carries of what the server has given.
use protocoale_de_comunicati.Common.{
  ℕ, suc, ◌<◌, ◌≡◌, refl, sym, ap, ◌∙◌, arith, Option, none, some, Bool, true, false, List, [], ◌∷◌,
  ◌++◌, if◌then◌else◌, length, codes, Outcome, ok, ◌>>=◌, Returns, Returns-value,
}
use protocoale_de_comunicati.Common.Maps.{str_eq}
use protocoale_de_comunicati.Http.Requests.{request_line}
use protocoale_de_comunicati.Library.Requests.{compute_get_request, compute_post_request}
use protocoale_de_comunicati.Library.Text.{get_request, compute_get_request-request}
use protocoale_de_comunicati.Library.{
  Json, Handler, State, host, content_type, login_path, enter_library_path, books_path, logout_path,
  free_stored_data, getline, exchange, parse_from, parse_books, response_json, has_error, report,
  store_cookie, credentials, read_books, handle_login, handle_auth, handle_enter_library,
  handle_get_books, handle_logout,
}
use protocoale_de_comunicati.Library.Texts.{strstr, status_line}
use protocoale_de_comunicati.Library.Loop.{is_space, trim_left, trim_right, command, run, main}
use protocoale_de_comunicati.Library.Session.{
  LoginResponse, IsLogin, text_of, from_cookie, login_status, store_cookie_lem, unquoted_lem,
  get_request-with_cookie, get_request-with_token,
}

abbrev pub HasStatus : List ℕ → Type 0
HasStatus response = Returns (λ _. Unit) (status_line response)

if_same : (b : Bool) (o : Outcome State) → (if b then o else o) ≡ o
if_same true o = refl
if_same false o = refl

module _ {J : Type 0} (json : Json J) where
  response_json-none :
      (response : List ℕ) → strstr response 123 ≡ none → response_json json response ≡ ok none
  unfolding response_json
  response_json-none response e = rw (response_json, e) refl

  handle_login_lem :
      (h : Handler) (sent ls more : List (List ℕ)) (u p post : List ℕ) (r : LoginResponse)
      → IsLogin r
      → compute_post_request host login_path content_type (credentials json u p) none none ≡ ok post
      → handle_login json
          (record { handler = h; sent = sent; lines = u ∷ p ∷ ls; responses = text_of r ∷ more })
        ≡ ok (record {
          handler = record { cookies = some r.cookie; token_access = none };
          sent = sent ++ post ∷ [];
          lines = ls;
          responses = more;
        })
  unfolding handle_login getline exchange has_error free_stored_data
  handle_login_lem h sent ls more u p post r v e =
      let empty : Handler = record { cookies = none; token_access = none } in
      let shown : List ℕ = r.word ++ 32 ∷ (r.status ++ 0 ∷ (r.headers ++ from_cookie r)) in
      let is : status_line (text_of r) ≡ ok shown = login_status r v in
      let stored : store_cookie empty shown ≡ ok (record empty { cookies = some r.cookie }) =
        sym (ap (λ o. o >>= λ t. store_cookie empty t) is) ∙ store_cookie_lem empty r v in
      rw (e, response_json-none (text_of r) v.no_json, is, stored) refl

  -- A response that lets the client in with a token.
  pub record IsAccess (response token : List ℕ) : Type 0 where
    pub status : HasStatus response
    pub document : J
    pub parsed : parse_from json (strstr response 123) ≡ ok document
    pub member : J
    pub found : json.find document (codes "token") ≡ some member
    pub quoted : json.dump member ≡ 34 ∷ (token ++ 34 ∷ [])

  handle_enter_library_lem :
      (cookie response token : List ℕ) (sent ls more : List (List ℕ)) (old : Option (List ℕ))
      → length cookie < 900
      → IsAccess response token
      → handle_enter_library json (record {
        handler = record { cookies = some cookie; token_access = old };
        sent = sent;
        lines = ls;
        responses = response ∷ more;
      })
        ≡ ok (record {
          handler = record { cookies = some cookie; token_access = some token };
          sent = sent ++ get_request host enter_library_path (some (cookie ∷ [])) none ∷ [];
          lines = ls;
          responses = more;
        })
  unfolding handle_enter_library exchange
  handle_enter_library_lem cookie response token sent ls more old short v =
      let (shown, is, _) = Returns-value (status_line response) v.status in
      rw
        (
          get_request-with_cookie enter_library_path cookie (omega arith) short,
          v.parsed,
          is,
          v.found,
          v.quoted,
          unquoted_lem 34 34 token,
        )
        refl

  -- A list of books, or an error.
  pub record IsBooks (response : List ℕ) : Type 0 where
    pub status : HasStatus response
    pub document : J
    pub parsed : parse_books json response ≡ ok document
    pub readable : Returns (λ _. Unit) (read_books json (json.items document))

  handle_get_books_lem :
      (h : Handler) (request response : List ℕ) (sent ls more : List (List ℕ))
      → compute_get_request host books_path none none h.token_access ≡ ok request
      → IsBooks response
      → handle_get_books json
          (record { handler = h; sent = sent; lines = ls; responses = response ∷ more })
        ≡ ok (record { handler = h; sent = sent ++ request ∷ []; lines = ls; responses = more })
  unfolding handle_get_books exchange
  handle_get_books_lem h request response sent ls more e v =
      let (shown, is, _) = Returns-value (status_line response) v.status in
      let (done, read, _) = Returns-value (read_books json (json.items v.document)) v.readable in
      rw (e, v.parsed, is, read) (if_same (has_error json (some v.document)) _)

  handle_logout_lem :
      (cookie response : List ℕ) (sent ls more : List (List ℕ)) (token : Option (List ℕ))
      → length cookie < 900
      → Returns (λ _. Unit) (report json response)
      → handle_logout json (record {
        handler = record { cookies = some cookie; token_access = token };
        sent = sent;
        lines = ls;
        responses = response ∷ more;
      })
        ≡ ok (record {
          handler = record { cookies = none; token_access = none };
          sent = sent ++ get_request host logout_path (some (cookie ∷ [])) none ∷ [];
          lines = ls;
          responses = more;
        })
  unfolding handle_logout exchange free_stored_data
  handle_logout_lem cookie response sent ls more token short v =
      let (done, is, _) = Returns-value (report json response) v in
      rw (get_request-with_cookie logout_path cookie (omega arith) short, is) refl

  plain_books :
      compute_get_request host books_path none none none
      ≡ ok (get_request host books_path none none)
  unfolding request_line
  plain_books =
      compute_get_request-request host books_path none none tt (omega arith, (omega arith, tt)) tt
        (omega arith)

  -- A line that is not `exit`.
  run-command :
      (fuel : ℕ) (line : List ℕ) (h : Handler) (sent lines responses : List (List ℕ)) (s' : State)
      → str_eq (trim_right (trim_left line)) (codes "exit") ≡ false
      → command json
          (trim_right (trim_left line))
          (record { handler = h; sent = sent; lines = lines; responses = responses })
        ≡ ok s'
      → run json
          (suc fuel)
          (record { handler = h; sent = sent; lines = line ∷ lines; responses = responses })
        ≡ run json fuel s'
  unfolding run
  run-command fuel line h sent lines responses s' other e = rw (other, e) refl

  -- The client logs in, enters the library, asks for the books, logs out and asks again. The server
  -- answers the login with a cookie of fewer than 900 characters and no JSON, the second request with
  -- a token of fewer than 900, and the others with what the client can read. Then the client sends
  -- the credentials as they were typed, the cookie up to its semicolon when it enters and when it logs
  -- out, the token without its quotes when it asks for the books, and neither of them once it has logged
  -- out; it has forgotten both at the end.
  pub main-session :
      (u p post access books bye again token : List ℕ) (r : LoginResponse)
      → compute_post_request host login_path content_type (credentials json u p) none none ≡ ok post
      → IsLogin r
      → IsAccess access token
      → length token < 900
      → IsBooks books
      → Returns (λ _. Unit) (report json bye)
      → IsBooks again
      → main json
          (codes "login"
            ∷ u
            ∷ p
            ∷ codes " enter_library"
            ∷ codes "get_books"
            ∷ codes "logout "
            ∷ codes "get_books"
            ∷ [])
          (text_of r ∷ access ∷ books ∷ bye ∷ again ∷ [])
        ≡ ok (record {
          handler = record { cookies = none; token_access = none };
          sent =
              post
              ∷ get_request host enter_library_path (some (r.cookie ∷ [])) none
              ∷ get_request host books_path none (some token)
              ∷ get_request host logout_path (some (r.cookie ∷ [])) none
              ∷ get_request host books_path none none
              ∷ [];
          lines = [];
          responses = [];
        })
  unfolding main run command handle_auth trim_left trim_right is_space str_eq
  main-session u p post access books bye again token r e v1 v2 short v3 v4 v5 =
      let empty : Handler = record { cookies = none; token_access = none } in
      let inside : Handler = record { cookies = some r.cookie; token_access = some token } in
      let enters : List ℕ = get_request host enter_library_path (some (r.cookie ∷ [])) none in
      let asks : List ℕ = get_request host books_path none (some token) in
      let leaves : List ℕ = get_request host logout_path (some (r.cookie ∷ [])) none in
      let l4 : List (List ℕ) = codes "get_books" ∷ [] in
      let l3 : List (List ℕ) = codes "logout " ∷ l4 in
      let l2 : List (List ℕ) = codes "get_books" ∷ l3 in
      let l1 : List (List ℕ) = codes " enter_library" ∷ l2 in
      let r4 : List (List ℕ) = again ∷ [] in
      let r3 : List (List ℕ) = bye ∷ r4 in
      let r2 : List (List ℕ) = books ∷ r3 in
      let r1 : List (List ℕ) = access ∷ r2 in
      run-command 6 (codes "login") empty [] (u ∷ p ∷ l1) (text_of r ∷ r1) _ refl
        (handle_login_lem empty [] l1 r1 u p post r v1 e)
      ∙ run-command 5 (codes " enter_library") _ (post ∷ []) l2 r1 _ refl
          (handle_enter_library_lem r.cookie access token (post ∷ []) l2 r2 none v1.cookie_short v2)
      ∙ run-command 4 (codes "get_books") inside (post ∷ enters ∷ []) l3 r2 _ refl (
          handle_get_books_lem inside asks books (post ∷ enters ∷ []) l3 r3
            (get_request-with_token books_path token (omega arith) short) v3)
      ∙ run-command 3 (codes "logout ") inside (post ∷ enters ∷ asks ∷ []) l4 r3 _ refl (
          handle_logout_lem r.cookie bye (post ∷ enters ∷ asks ∷ []) l4 r4 (some token)
            v1.cookie_short v4)
      ∙ run-command 2 (codes "get_books") empty (post ∷ enters ∷ asks ∷ leaves ∷ []) [] r4 _ refl (
          handle_get_books_lem empty _ again (post ∷ enters ∷ asks ∷ leaves ∷ []) [] [] plain_books
            v5)
