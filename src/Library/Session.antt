-- ===== src/Library/Session.antt =====
-- The responses to the client of tema3, and the requests that carry what was in them.
use mathlib.Core.List.{append_assoc}
use protocoale_de_comunicati.Common.{
  ℕ, ◌<◌, ◌≡◌, ◌≢◌, refl, sym, ap, ◌∙◌, arith, none, some, false, List, [], ◌∷◌, ◌++◌, ◌==◌, length,
  length-append, codes, ok, ◌>>=◌,
}
use protocoale_de_comunicati.Http.Requests.{buflen, crlf, request_line}
use protocoale_de_comunicati.Http.Requests.Text.{strcat-fits, header, cookie_lines}
use protocoale_de_comunicati.Library.Requests.{compute_get_request}
use protocoale_de_comunicati.Library.Text.{token_lines, get_request, compute_get_request-request}
use protocoale_de_comunicati.Library.{Handler, host, store_cookie}
use protocoale_de_comunicati.Library.Texts.{
  begins_with, before_semicolon, take_cookie, strstr, end_line, status_line, c_text, unquoted,
}

abbrev pub HasNo : (byte : ℕ) → List ℕ → Type 0
HasNo byte [] = Unit
HasNo byte (c ∷ cs) = (c ≢ byte) × HasNo byte cs

end_line_lem :
    (text rest : List ℕ) → HasNo 10 text → end_line (text ++ 10 ∷ rest) ≡ ok (text ++ 0 ∷ rest)
unfolding end_line
end_line_lem [] rest n = refl
end_line_lem (c ∷ cs) rest (n, ns) =
    let other : (c == 10) ≡ false = ground (arith, n) in rw (other, end_line_lem cs rest ns) refl

status_line_lem :
    (word text rest : List ℕ)
    → HasNo 32 word
    → HasNo 10 text
    → status_line (word ++ 32 ∷ (text ++ 10 ∷ rest)) ≡ ok (word ++ 32 ∷ (text ++ 0 ∷ rest))
unfolding status_line end_line
status_line_lem [] text rest w n = rw (end_line_lem text rest n) refl
status_line_lem (c ∷ cs) text rest (w, ws) n =
    let other : (c == 32) ≡ false = ground (arith, w) in
    rw (other, status_line_lem cs text rest ws n) refl

before_semicolon_lem :
    (cookie tail : List ℕ) → HasNo 59 cookie → before_semicolon (cookie ++ 59 ∷ tail) ≡ ok cookie
unfolding before_semicolon
before_semicolon_lem [] tail n = refl
before_semicolon_lem (c ∷ cs) tail (n, ns) =
    let other : (c == 59) ≡ false = ground (arith, n) in
    rw (other, before_semicolon_lem cs tail ns) refl

c_text_lem : (text : List ℕ) → HasNo 0 text → c_text text ≡ text
unfolding c_text
c_text_lem [] n = refl
c_text_lem (c ∷ cs) (n, ns) =
    let other : (c == 0) ≡ false = ground (arith, n) in rw (other, c_text_lem cs ns) refl

pub unquoted_lem : (q p : ℕ) (text : List ℕ) → unquoted (q ∷ (text ++ p ∷ [])) ≡ ok text
unfolding unquoted
unquoted_lem q p [] = refl
unquoted_lem q p (c ∷ []) = refl
unquoted_lem q p (c ∷ d ∷ cs) = rw (unquoted_lem c p (d ∷ cs)) refl

-- No header of a cookie starts within the first part of the text.
abbrev pub NoCookieIn : (first rest : List ℕ) → Type 0
NoCookieIn [] rest = Unit
NoCookieIn (c ∷ cs) rest =
    (begins_with (codes "Set-Cookie: ") (c ∷ cs ++ rest) ≡ false) × NoCookieIn cs rest

take_cookie_lem :
    (first cookie tail : List ℕ)
    → NoCookieIn first (codes "Set-Cookie: " ++ (cookie ++ 59 ∷ tail))
    → HasNo 59 cookie
    → take_cookie (first ++ (codes "Set-Cookie: " ++ (cookie ++ 59 ∷ tail))) ≡ ok cookie
unfolding take_cookie begins_with
take_cookie_lem [] cookie tail n v = before_semicolon_lem cookie tail v
take_cookie_lem (c ∷ cs) cookie tail (n, ns) v = rw (n, take_cookie_lem cs cookie tail ns v) refl

-- A response to a login: a status line, headers, a cookie up to a semicolon, and the rest.
pub record LoginResponse : Type 0 where
  pub word : List ℕ
  pub status : List ℕ
  pub headers : List ℕ
  pub cookie : List ℕ
  pub tail : List ℕ

abbrev pub from_cookie : LoginResponse → List ℕ
from_cookie r = codes "Set-Cookie: " ++ (r.cookie ++ 59 ∷ r.tail)

abbrev pub text_of : LoginResponse → List ℕ
text_of r = r.word ++ 32 ∷ (r.status ++ 10 ∷ (r.headers ++ from_cookie r))

pub record IsLogin (r : LoginResponse) : Type 0 where
  pub word_ends : HasNo 32 r.word
  pub status_ends : HasNo 10 r.status
  pub first_cookie : NoCookieIn (r.word ++ 32 ∷ (r.status ++ 0 ∷ r.headers)) (from_cookie r)
  pub cookie_ends : HasNo 59 r.cookie
  pub cookie_text : HasNo 0 r.cookie
  pub cookie_short : length r.cookie < 900
  pub no_json : strstr (text_of r) 123 ≡ none

pub login_status :
    (r : LoginResponse)
    → IsLogin r
    → status_line (text_of r) ≡ ok (r.word ++ 32 ∷ (r.status ++ 0 ∷ (r.headers ++ from_cookie r)))
login_status r v =
    status_line_lem r.word r.status (r.headers ++ from_cookie r) v.word_ends v.status_ends

pub store_cookie_lem :
    (h : Handler) (r : LoginResponse)
    → IsLogin r
    → (status_line (text_of r) >>= λ shown. store_cookie h shown)
      ≡ ok (record h { cookies = some r.cookie })
unfolding store_cookie
store_cookie_lem h r v =
    let first : List ℕ = r.word ++ 32 ∷ (r.status ++ 0 ∷ r.headers) in
    let whole : r.word ++ 32 ∷ (r.status ++ 0 ∷ (r.headers ++ from_cookie r))
        ≡ first ++ from_cookie r =
      sym (
        append_assoc r.word (32 ∷ (r.status ++ 0 ∷ r.headers)) (from_cookie r)
        ∙ ap (λ t. r.word ++ 32 ∷ t) (append_assoc r.status (0 ∷ r.headers) (from_cookie r))) in
    rw
      (
        login_status r v,
        whole,
        take_cookie_lem first r.cookie r.tail v.first_cookie v.cookie_ends,
        c_text_lem r.cookie v.cookie_text,
        strcat-fits buflen [] r.cookie (omega (arith, v.cookie_short)),
      )
      refl

-- The texts that the client builds stay in their arrays.
pub get_request-with_cookie :
    (url cookie : List ℕ)
    → length url < 40
    → length cookie < 900
    → compute_get_request host url none (some (cookie ∷ [])) none
      ≡ ok (get_request host url (some (cookie ∷ [])) none)
unfolding request_line
get_request-with_cookie url cookie short small =
    let a = length-append url (codes " HTTP/1.1") in
    let b = length-append (request_line url none) crlf in
    let c = length-append (codes "Cookie: ") cookie in
    let d = length-append (codes "Cookie: " ++ cookie) crlf in
    let e = length-append ((codes "Cookie: " ++ cookie) ++ crlf) [] in
    let f = length-append (header (cookie_lines (some (cookie ∷ [])))) crlf in
    let g = length-append (request_line url none ++ crlf) (
      ((codes "Host: " ++ host) ++ crlf) ++ (header (cookie_lines (some (cookie ∷ []))) ++ crlf)) in
    compute_get_request-request host url (some (cookie ∷ [])) none tt
      (omega (arith, a), (omega arith, (omega (arith, c), tt))) tt
      (omega (arith, a, b, c, d, e, f, g))

pub get_request-with_token :
    (url token : List ℕ)
    → length url < 40
    → length token < 900
    → compute_get_request host url none none (some token)
      ≡ ok (get_request host url none (some token))
unfolding request_line
get_request-with_token url token short small =
    let a = length-append url (codes " HTTP/1.1") in
    let b = length-append (request_line url none) crlf in
    let c = length-append (codes "Authorization: Bearer ") token in
    let d = length-append (codes "Authorization: Bearer " ++ token) crlf in
    let e = length-append ((codes "Authorization: Bearer " ++ token) ++ crlf) [] in
    let f = length-append (header (token_lines (some token))) crlf in
    let g =
      length-append (request_line url none ++ crlf)
        (((codes "Host: " ++ host) ++ crlf) ++ (header (token_lines (some token)) ++ crlf)) in
    compute_get_request-request host url none (some token) tt (omega (arith, a), (omega arith, tt))
      (omega (arith, c), tt) (omega (arith, a, b, c, d, e, f, g))
