-- ===== src/Library.antt =====
-- The client of a library service of tema3: the class Handler and main of tema3/client.cpp. JSON is
-- the library nlohmann, whose operations are a parameter, and so are the lines of the input and the
-- responses that the server gives. What is printed is left out.
pub mod Requests
pub mod Texts
pub mod Loop
pub mod Text
pub mod Session
pub mod Carries
pub mod Enough
use protocoale_de_comunicati.Common.{
  ℕ, zero, suc, ◌+◌, Option, none, some, Bool, true, false, List, [], ◌∷◌, ◌++◌, ◌==◌, leb, length,
  if◌then◌else◌, drop, codes, Outcome, ok, exited, fault, ◌>>=◌,
}
use protocoale_de_comunicati.Common.Maps.{str_eq}
use protocoale_de_comunicati.Http.Requests.{buflen, strcat}
use protocoale_de_comunicati.Library.Texts.{take_cookie, strstr, status_line, c_text, unquoted}
use protocoale_de_comunicati.Library.Requests.{
  compute_get_request, compute_post_request, compute_delete_request,
}

-- The operations of nlohmann::ordered_json that the client uses. `parse` is `none` where it throws,
-- and so are `index` and `first`, which are `[]` with a key and with 0; `find` is `none` for `end()`;
-- `object` has the fields in the order in which they were assigned; `items` is what a loop goes over.
pub record Json (J : Type 0) : Type 0 where
  pub object : List (List ℕ × List ℕ) → J
  pub dump : J → List ℕ
  pub parse : List ℕ → Option J
  pub find : J → List ℕ → Option J
  pub index : J → List ℕ → Option J
  pub first : J → Option J
  pub items : J → List J

-- `Handler`: the one cookie and the token, `none` for `NULL`.
pub record Handler : Type 0 where
  pub cookies : Option (List ℕ)
  pub token_access : Option (List ℕ)

-- What a call leaves: the data, the requests that it sent, and the lines and responses that are left.
pub record State : Type 0 where
  pub handler : Handler
  pub sent : List (List ℕ)
  pub lines : List (List ℕ)
  pub responses : List (List ℕ)

abbrev pub host : List ℕ
host = codes "34.118.48.238"

abbrev pub content_type : List ℕ
content_type = codes "application/json"

abbrev pub register_path : List ℕ
register_path = codes "/api/v1/tema/auth/register"

abbrev pub login_path : List ℕ
login_path = codes "/api/v1/tema/auth/login"

abbrev pub enter_library_path : List ℕ
enter_library_path = codes "/api/v1/tema/library/access"

abbrev pub books_path : List ℕ
books_path = codes "/api/v1/tema/library/books"

abbrev pub logout_path : List ℕ
logout_path = codes "/api/v1/tema/auth/logout"

unfoldable pub free_stored_data : Handler → Handler
free_stored_data h = record { cookies = none; token_access = none }

-- `getline(cin, buffer)`; lines end with a newline, and behind the last one the text is empty.
unfoldable pub getline : State → List ℕ × State
getline s = elim s.lines [ [] ↦ ([], s) | l ∷ ls ↦ (l, record s { lines = ls }) ]

-- `send_to_server` and `receive_from_server`; without a response the client ends.
unfoldable pub exchange : State → (message : List ℕ) → Outcome (List ℕ × State)
exchange s message = elim s.responses [
  | [] ↦ exited
  | response ∷ more ↦ ok (response, record s { sent = s.sent ++ message ∷ []; responses = more })
]

-- `get_book_path`.
unfoldable pub book_path : (id : List ℕ) → Outcome (List ℕ)
book_path id = do
  p1 ← strcat buflen [] books_path
  p2 ← strcat buflen p1 (codes "/")
  strcat buflen p2 id

-- `cookies[0]`, which has `buflen` bytes.
unfoldable pub store_cookie : Handler → (response : List ℕ) → Outcome Handler
unfolding take_cookie c_text
store_cookie h response = do
  cookie ← take_cookie response
  copy ← strcat buflen [] (c_text cookie)
  ok (record h { cookies = some copy })

-- The array of cookies has one cookie.
abbrev pub cookie_array : Handler → Option (List (List ℕ))
cookie_array h = elim h.cookies [ none ↦ none | some cookie ↦ some (cookie ∷ []) ]

module _ {J : Type 0} (json : Json J) where
  unfoldable pub parse : List ℕ → Outcome J
  parse text = elim (json.parse text) [ none ↦ fault | some document ↦ ok document ]

  -- The JSON object in the response, `none` where there is no brace: `response_json` stays null.
  unfoldable pub response_json : (response : List ℕ) → Outcome (Option J)
  unfolding strstr parse
  response_json response = elim (strstr response 123) [
    | none ↦ ok none
    | some response_data ↦ parse response_data >>= λ document. ok (some document)
  ]

  unfoldable pub has_error : Option J → Bool
  has_error none = false
  has_error (some document) = elim (json.find document (codes "error")) [
    | none ↦ false
    | some error ↦ true
  ]

  -- The list or object of `handle_enter_library`, `handle_get_books` and `handle_get_book`;
  -- `string(NULL)` throws.
  unfoldable pub parse_from : Option (List ℕ) → Outcome J
  unfolding parse
  parse_from none = fault
  parse_from (some body_data) = parse body_data

  unfoldable pub parse_books : (response : List ℕ) → Outcome J
  unfolding strstr parse_from
  parse_books response = elim (strstr response 91) [
    | none ↦ parse_from (strstr response 123)
    | some body_data ↦ parse_from (some body_data)
  ]

  -- The tail that `handle_add_book`, `handle_delete_book` and `handle_logout` share.
  unfoldable pub report : (response : List ℕ) → Outcome {0} Unit
  unfolding response_json has_error status_line
  report response = do
    document ← response_json response
    if has_error document then ok tt else (status_line response >>= λ shown. ok tt)

  abbrev pub credentials : (username password : List ℕ) → List ℕ
  credentials username password =
      json.dump (json.object ((codes "username", username) ∷ (codes "password", password) ∷ []))

  unfoldable pub handle_register : State → Outcome State
  unfolding getline exchange report
  handle_register s =
      let (username, s1) = getline s in
      let (password, s2) = getline s1 in
      do
        message ←
            compute_post_request host register_path content_type (credentials username password)
              none none
        (response, s3) ← exchange s2 message
        done ← report response
        ok s3

  -- The line is not empty, so that `strlen(response) != 0`.
  unfoldable pub handle_login : State → Outcome State
  unfolding getline exchange response_json has_error status_line store_cookie free_stored_data
  handle_login s =
      let (username, s1) = getline s in
      let (password, s2) = getline s1 in
      do
        message ←
            compute_post_request host login_path content_type (credentials username password) none
              none
        (response, s3) ← exchange (record s2 { handler = free_stored_data s2.handler }) message
        document ← response_json response
        let kept : Outcome State = ok s3
        let stored : Outcome State = status_line response >>= λ shown.
            store_cookie s3.handler shown >>= λ h. ok (record s3 { handler = h })
        if has_error document then kept else stored

  unfoldable pub handle_auth : (auth_type : List ℕ) → State → Outcome State
  unfolding handle_register handle_login
  handle_auth auth_type s =
      if str_eq auth_type (codes "login") then handle_login s else handle_register s

  unfoldable pub handle_enter_library : State → Outcome State
  unfolding exchange strstr parse_from status_line unquoted
  handle_enter_library s = do
    message ← compute_get_request host enter_library_path none (cookie_array s.handler) none
    (response, s') ← exchange s message
    document ← parse_from (strstr response 123)
    shown ← status_line response
    elim (json.find document (codes "token")) [
      | none ↦ ok s'
      | some token ↦ unquoted (json.dump token) >>= λ text.
          ok (record s' { handler = record s'.handler { token_access = some text } })
    ]

  -- The loop that prints the books reads two members of each.
  unfoldable pub read_members : J → List (List ℕ) → Outcome {0} Unit
  read_members book [] = ok tt
  read_members book (key ∷ keys) =
      let rest = read_members book keys in
      elim (json.index book key) [ none ↦ fault | some value ↦ rest ]

  unfoldable pub read_books : List J → Outcome {0} Unit
  unfolding read_members
  read_books [] = ok tt
  read_books (book ∷ books) =
      let rest = read_books books in
      read_members book (codes "id" ∷ codes "title" ∷ []) >>= λ done. rest

  unfoldable pub handle_get_books : State → Outcome State
  unfolding exchange parse_books status_line has_error read_books
  handle_get_books s = do
    message ← compute_get_request host books_path none none s.handler.token_access
    (response, s') ← exchange s message
    document ← parse_books response
    shown ← status_line response
    if has_error (some document)
        then ok s'
        else (read_books (json.items document) >>= λ done. ok s')

  unfoldable pub read_book : Option J → Outcome {0} Unit
  unfolding read_members
  read_book none = fault
  read_book (some book) =
      read_members book (
        codes "title"
        ∷ codes "author"
        ∷ codes "publisher"
        ∷ codes "genre"
        ∷ codes "page_count"
        ∷ [])

  unfoldable pub handle_get_book : State → Outcome State
  unfolding getline book_path exchange parse_books status_line has_error read_book
  handle_get_book s =
      let (id, s1) = getline s in
      do
        get_book_path ← book_path id
        message ← compute_get_request host get_book_path none none s1.handler.token_access
        (response, s') ← exchange s1 message
        document ← parse_books response
        shown ← status_line response
        if has_error (some document)
            then ok s'
            else (read_book (json.first document) >>= λ done. ok s')

  abbrev pub book_fields : (title author genre page_count publisher : List ℕ) → List ℕ
  book_fields title author genre page_count publisher = json.dump (
      json.object (
        (codes "title", title)
        ∷ (codes "author", author)
        ∷ (codes "genre", genre)
        ∷ (codes "page_count", page_count)
        ∷ (codes "publisher", publisher)
        ∷ []))

  unfoldable pub handle_add_book : State → Outcome State
  unfolding getline exchange report
  handle_add_book s =
      let (title, s1) = getline s in
      let (author, s2) = getline s1 in
      let (genre, s3) = getline s2 in
      let (page_count, s4) = getline s3 in
      let (publisher, s5) = getline s4 in
      do
        message ←
            compute_post_request host books_path content_type
              (book_fields title author genre page_count publisher) none s5.handler.token_access
        (response, s') ← exchange s5 message
        done ← report response
        ok s'

  unfoldable pub handle_delete_book : State → Outcome State
  unfolding getline book_path exchange report
  handle_delete_book s =
      let (id, s1) = getline s in
      do
        get_book_path ← book_path id
        message ← compute_delete_request host get_book_path none none s1.handler.token_access
        (response, s') ← exchange s1 message
        done ← report response
        ok s'

  unfoldable pub handle_logout : State → Outcome State
  unfolding exchange report free_stored_data
  handle_logout s = do
    message ← compute_get_request host logout_path none (cookie_array s.handler) none
    (response, s') ← exchange s message
    done ← report response
    ok (record s' { handler = free_stored_data s'.handler })
