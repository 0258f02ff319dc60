-- ===== src/Library/Text.antt =====
-- The text of the GET requests of tema3/requests.cpp.
use mathlib.Core.List.{append_assoc, append-nil}
use protocoale_de_comunicati.Common.{
  ℕ, ◌+◌, ◌<◌, ◌≡◌, refl, sym, ap, ◌∙◌, arith, Option, none, some, List, [], ◌∷◌, ◌++◌, length,
  length-append, codes, ok,
}
use protocoale_de_comunicati.Http.Requests.{buflen, linelen, crlf, request_line}
use protocoale_de_comunicati.Http.Requests.Text.{
  strcat-fits, compute_message-fits, add_line-fits, header, cookie_lines, AreShort, HasCookies,
  add_cookies-fits,
}
use protocoale_de_comunicati.Library.Requests.{add_authorization, compute_get_request}

abbrev pub token_lines : Option (List ℕ) → List (List ℕ)
token_lines none = []
token_lines (some token) = (codes "Authorization: Bearer " ++ token) ∷ []

add_authorization-fits :
    (message : List ℕ) (authorization : Option (List ℕ))
    → AreShort (token_lines authorization)
    → length message + length (header (token_lines authorization)) < buflen
    → add_authorization message authorization ≡ ok (message ++ header (token_lines authorization))
unfolding add_authorization
add_authorization-fits message none short room = ap ok (sym (append-nil message))
add_authorization-fits message (some token) (short, u) room =
    let line : List ℕ = codes "Authorization: Bearer " ++ token in
    let l1 = length-append (line ++ crlf) [] in
    let l2 = length-append line crlf in
    let l3 = length-append (codes "Authorization: Bearer ") token in
    rw
      (
        strcat-fits linelen [] (codes "Authorization: Bearer ") (omega (arith, short, l3)),
        strcat-fits linelen (codes "Authorization: Bearer ") token (omega (arith, short, l3)),
        compute_message-fits message line (omega (arith, room, l1, l2)),
        append-nil (line ++ crlf),
      )
      refl

-- A request line, the host, the token and the cookies, each with its end, and an empty line.
abbrev pub get_request :
    (host url : List ℕ) (cookies : Option (List (List ℕ))) (authorization : Option (List ℕ))
    → List ℕ
get_request host url cookies authorization =
    (request_line url none ++ crlf)
    ++ (((codes "Host: " ++ host) ++ crlf)
        ++ (header (token_lines authorization) ++ (header (cookie_lines cookies) ++ crlf)))

-- `compute_get_request` without parameters writes the request line, the host, the token and the cookies
-- if there are any, and the empty line, if each line has fewer than 1000 characters and the
-- request fewer than 4096.
pub compute_get_request-request :
    (host url : List ℕ) (cookies : Option (List (List ℕ))) (authorization : Option (List ℕ))
    → HasCookies cookies
    → AreShort (request_line url none ∷ (codes "Host: " ++ host) ∷ cookie_lines cookies)
    → AreShort (token_lines authorization)
    → length (get_request host url cookies authorization) < buflen
    → compute_get_request host url none cookies authorization
      ≡ ok (get_request host url cookies authorization)
unfolding compute_get_request
compute_get_request-request host url cookies authorization given (s1, (s2, s3)) s4 room =
    let a : List ℕ = header (token_lines authorization) in
    let h : List ℕ = header (cookie_lines cookies) in
    let l1 : List ℕ = request_line url none in
    let l2 : List ℕ = codes "Host: " ++ host in
    let e1 : List ℕ = l1 ++ crlf in
    let e2 : List ℕ = l2 ++ crlf in
    let c1 : length e1 ≡ length l1 + 2 = length-append l1 crlf in
    let c2 : length e2 ≡ length l2 + 2 = length-append l2 crlf in
    let d1 = length-append e1 (e2 ++ (a ++ (h ++ crlf))) in
    let d2 = length-append e2 (a ++ (h ++ crlf)) in
    let d3 = length-append a (h ++ crlf) in
    let d4 = length-append h crlf in
    let total : length e1 + length e2 + length a + length h + 2 < buflen =
      omega (arith, d1, d2, d3, d4, room) in
    let f1 = length-append e1 e2 in
    let f2 = length-append (e1 ++ e2) a in
    let f3 = length-append ((e1 ++ e2) ++ a) h in
    rw
      (
        add_line-fits [] l1 s1 (omega (arith, c1, total)),
        add_line-fits e1 l2 s2 (omega (arith, c2, total)),
        add_authorization-fits (e1 ++ e2) authorization s4 (omega (arith, f1, total)),
        add_cookies-fits ((e1 ++ e2) ++ a) cookies given s3 (omega (arith, f1, f2, total)),
        compute_message-fits (((e1 ++ e2) ++ a) ++ h) [] (omega (arith, f1, f2, f3, total)),
      )
      (ap ok (
        append_assoc ((e1 ++ e2) ++ a) h crlf
        ∙ append_assoc (e1 ++ e2) a (h ++ crlf)
        ∙ append_assoc e1 e2 (a ++ (h ++ crlf))))
