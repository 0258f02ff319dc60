-- ===== src/Tests/LibraryTests.antt =====
-- A session of the client of tema3 with short responses, and a JSON library that knows little.
use protocoale_de_comunicati.Common.{
  ℕ, ◌≡◌, refl, arith, none, some, List, [], ◌∷◌, ◌++◌, ◌==◌, if◌then◌else◌, codes, ok,
}
use protocoale_de_comunicati.Common.Maps.{str_eq}
use protocoale_de_comunicati.Http.Requests.{
  strcat, compute_message, add_line, add_cookies, decimal_from, decimal, crlf,
}
use protocoale_de_comunicati.Library.Requests.{add_authorization, compute_post_request}
use protocoale_de_comunicati.Library.Text.{get_request}
use protocoale_de_comunicati.Library.{
  Json, State, host, content_type, login_path, enter_library_path, books_path, logout_path,
  credentials, parse, parse_from, parse_books, response_json, has_error, report, read_books,
}
use protocoale_de_comunicati.Library.Texts.{strstr, status_line, end_line, begins_with}
use protocoale_de_comunicati.Library.Loop.{main}
use protocoale_de_comunicati.Library.Session.{LoginResponse, IsLogin, text_of}
use protocoale_de_comunicati.Library.Carries.{IsAccess, IsBooks, main-session}

-- Every text is the document 2, whose member `token` is 1, the text `tok`.
abbrev small_json : Json ℕ
small_json = record {
  object = λ fields. 0;
  dump = λ j. if j == 1 then 34 ∷ codes "tok" ++ 34 ∷ [] else codes "{}";
  parse = λ text. some 2;
  find = λ j key. if str_eq key (codes "token") then some 1 else none;
  index = λ j key. some 3;
  first = λ j. some 3;
  items = λ j. [];
}

abbrev login : LoginResponse
login = record {
  word = codes "H";
  status = codes "2";
  headers = [];
  cookie = codes "sid=1";
  tail = codes " Path=/";
}

abbrev access : List ℕ
access = codes "H 2" ++ 10 ∷ codes "{}"

abbrev books : List ℕ
books = codes "H 2" ++ 10 ∷ codes "[]"

abbrev bye : List ℕ
bye = codes "H 2" ++ 10 ∷ []

abbrev login_post : List ℕ
login_post =
    codes "POST /api/v1/tema/auth/login HTTP/1.1"
    ++ crlf
    ++ codes "Host: 34.118.48.238"
    ++ crlf
    ++ codes "Content-Type: application/json"
    ++ crlf
    ++ codes "Content-Length: 2"
    ++ crlf
    ++ crlf
    ++ codes "{}"

login_post_text :
    compute_post_request host login_path content_type
      (credentials small_json (codes "me") (codes "pw"))
      none
      none
    ≡ ok login_post
unfolding compute_post_request add_authorization strcat compute_message add_line add_cookies decimal
    decimal_from
login_post_text = refl

login-IsLogin : IsLogin login
unfolding begins_with strstr
login-IsLogin = record {
  word_ends = omega arith;
  status_ends = omega arith;
  first_cookie = (refl, (refl, (refl, (refl, tt))));
  cookie_ends = omega arith;
  cookie_text = omega arith;
  cookie_short = omega arith;
  no_json = refl;
}

access-IsAccess : IsAccess small_json access (codes "tok")
unfolding parse_from parse strstr status_line end_line str_eq
access-IsAccess = record {
  status = tt;
  document = 2;
  parsed = refl;
  member = 1;
  found = refl;
  quoted = refl;
}

books-IsBooks : IsBooks small_json books
unfolding parse_books parse_from parse strstr status_line end_line read_books
books-IsBooks = record { status = tt; document = 2; parsed = refl; readable = tt }

bye_reported : report small_json bye ≡ ok tt
unfolding report response_json strstr has_error status_line end_line
bye_reported = refl

main-session_example :
    main small_json
      (codes "login"
        ∷ codes "me"
        ∷ codes "pw"
        ∷ codes " enter_library"
        ∷ codes "get_books"
        ∷ codes "logout "
        ∷ codes "get_books"
        ∷ [])
      (text_of login ∷ access ∷ books ∷ bye ∷ books ∷ [])
    ≡ ok (record {
      handler = record { cookies = none; token_access = none };
      sent =
          login_post
          ∷ get_request host enter_library_path (some (codes "sid=1" ∷ [])) none
          ∷ get_request host books_path none (some (codes "tok"))
          ∷ get_request host logout_path (some (codes "sid=1" ∷ [])) none
          ∷ get_request host books_path none none
          ∷ [];
      lines = [];
      responses = [];
    })
unfolding report response_json strstr has_error status_line end_line
main-session_example =
    main-session small_json (codes "me") (codes "pw") login_post access books bye books
      (codes "tok") login login_post_text login-IsLogin access-IsAccess (omega arith) books-IsBooks
      tt books-IsBooks

abbrev waiting : State
waiting = record {
  handler = record { cookies = none; token_access = none };
  sent = [];
  lines = codes "get_books" ∷ codes "exit" ∷ [];
  responses = books ∷ [];
}
