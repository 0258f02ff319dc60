-- ===== src/Http/Requests/Text.antt =====
-- The text of the requests of laboratoare/lab-10/requests.c.
use mathlib.Core.List.{append_assoc, append-nil}
use protocoale_de_comunicati.Common.{
  ℕ, ◌+◌, ◌<◌, ◌≡◌, refl, sym, ap, true, arith, Option, none, some, List, [], ◌∷◌, ◌++◌, length,
  length-append, ltb, lt→ltb, codes, ok, ◌>>=◌,
}
use protocoale_de_comunicati.Http.Requests.{
  strcat, buflen, linelen, crlf, compute_message, add_line, add_fields, add_cookies, request_line,
  compute_get_request,
}

-- The fields with the separator between them.
abbrev pub join : (separator : List ℕ) → List (List ℕ) → List ℕ
join separator [] = []
join separator (f ∷ []) = f
join separator (f ∷ g ∷ fields) = f ++ (separator ++ join separator (g ∷ fields))

pub strcat-fits :
    (len : ℕ) (dest src : List ℕ)
    → length dest + length src < len
    → strcat len dest src ≡ ok (dest ++ src)
unfolding strcat
strcat-fits len dest src lt =
    let room : ltb (length dest + length src) len ≡ true = lt→ltb _ _ lt in rw room refl

pub compute_message-fits :
    (message line : List ℕ)
    → length message + length line + 2 < buflen
    → compute_message message line ≡ ok (message ++ (line ++ crlf))
unfolding compute_message
compute_message-fits message line lt =
    rw
      (
        strcat-fits buflen message line (omega arith),
        strcat-fits buflen (message ++ line) crlf (omega (arith, length-append message line)),
        append_assoc message line crlf,
      )
      refl

pub add_line-fits :
    (message line : List ℕ)
    → length line < linelen
    → length message + length line + 2 < buflen
    → add_line message line ≡ ok (message ++ (line ++ crlf))
unfolding add_line
add_line-fits message line short room =
    rw (strcat-fits linelen [] line (omega arith), compute_message-fits message line room) refl

pub add_fields-fits :
    (line separator f : List ℕ) (fields : List (List ℕ))
    → length line + length (join separator (f ∷ fields)) < linelen
    → add_fields line separator (f ∷ fields) ≡ ok (line ++ join separator (f ∷ fields))
unfolding add_fields
add_fields-fits line separator f [] lt = strcat-fits linelen line f lt
add_fields-fits line separator f (g ∷ fields) lt =
    let whole = length-append f (separator ++ join separator (g ∷ fields)) in
    let tail = length-append separator (join separator (g ∷ fields)) in
    let grown = length-append line f in
    let longer = length-append (line ++ f) separator in
    rw
      (
        strcat-fits linelen line f (omega arith),
        strcat-fits linelen (line ++ f) separator (omega arith),
        add_fields-fits ((line ++ f) ++ separator) separator g fields (omega arith),
        append_assoc (line ++ f) separator (join separator (g ∷ fields)),
        append_assoc line f (separator ++ join separator (g ∷ fields)),
      )
      refl

-- Lines, each with its end.
abbrev pub header : List (List ℕ) → List ℕ
header [] = []
header (l ∷ ls) = (l ++ crlf) ++ header ls

-- A request of HTTP: the lines of the header, an empty line, and the body.
abbrev pub request : (lines : List (List ℕ)) → (body : List ℕ) → List ℕ
request lines body = header lines ++ (crlf ++ body)

abbrev pub cookie_lines : Option (List (List ℕ)) → List (List ℕ)
cookie_lines none = []
cookie_lines (some cookies) = (codes "Cookie: " ++ join (codes ";") cookies) ∷ []

-- The lines fit their array.
abbrev pub AreShort : List (List ℕ) → Type 0
AreShort [] = Unit
AreShort (l ∷ ls) = (length l < linelen) × AreShort ls

-- No array of cookies without cookies.
abbrev pub HasCookies : Option (List (List ℕ)) → Type 0
HasCookies none = Unit
HasCookies (some []) = ⊥
HasCookies (some (c ∷ cookies)) = Unit

pub named_fields-fits :
    (message name separator f : List ℕ) (fields : List (List ℕ))
    → length (name ++ join separator (f ∷ fields)) < linelen
    → length message + length (name ++ join separator (f ∷ fields)) + 2 < buflen
    → (strcat linelen [] name >>= λ l.
        add_fields l separator (f ∷ fields) >>= λ l'. compute_message message l')
      ≡ ok (message ++ (((name ++ join separator (f ∷ fields)) ++ crlf) ++ []))
named_fields-fits message name separator f fields short room =
    let whole = length-append name (join separator (f ∷ fields)) in
    rw
      (
        strcat-fits linelen [] name (omega (arith, whole, short)),
        add_fields-fits name separator f fields (omega (arith, whole, short)),
        compute_message-fits message (name ++ join separator (f ∷ fields)) room,
        append-nil ((name ++ join separator (f ∷ fields)) ++ crlf),
      )
      refl

pub add_cookies-fits :
    (message : List ℕ) (cookies : Option (List (List ℕ)))
    → HasCookies cookies
    → AreShort (cookie_lines cookies)
    → length message + length (header (cookie_lines cookies)) < buflen
    → add_cookies message cookies ≡ ok (message ++ header (cookie_lines cookies))
unfolding add_cookies
add_cookies-fits message none given short room = ap ok (sym (append-nil message))
add_cookies-fits message (some []) given short room = absurd given
add_cookies-fits message (some (c ∷ cookies)) given (short, u) room =
    let line : List ℕ = codes "Cookie: " ++ join (codes ";") (c ∷ cookies) in
    named_fields-fits message (codes "Cookie: ") (codes ";") c cookies short
      (omega (arith, length-append (line ++ crlf) [], length-append line crlf, room))

get_lines :
    (l1 l2 : List ℕ) (cookies : Option (List (List ℕ)))
    → HasCookies cookies
    → AreShort (l1 ∷ l2 ∷ cookie_lines cookies)
    → length (request (l1 ∷ l2 ∷ cookie_lines cookies) []) < buflen
    → (add_line [] l1 >>= λ m1.
        add_line m1 l2 >>= λ m2. add_cookies m2 cookies >>= λ m3. compute_message m3 [])
      ≡ ok (request (l1 ∷ l2 ∷ cookie_lines cookies) [])
get_lines l1 l2 cookies given (s1, (s2, s3)) room =
    let h : List ℕ = header (cookie_lines cookies) in
    let e1 : List ℕ = l1 ++ crlf in
    let e2 : List ℕ = l2 ++ crlf in
    let c1 : length e1 ≡ length l1 + 2 = length-append l1 crlf in
    let c2 : length e2 ≡ length l2 + 2 = length-append l2 crlf in
    let d1 = length-append (e1 ++ (e2 ++ h)) crlf in
    let d2 = length-append e1 (e2 ++ h) in
    let d3 = length-append e2 h in
    let d4 = length-append e1 e2 in
    let d5 = length-append (e1 ++ e2) h in
    rw
      (
        add_line-fits [] l1 s1 (omega (arith, c1, c2, d1, d2, d3, room)),
        add_line-fits e1 l2 s2 (omega (arith, c1, c2, d1, d2, d3, room)),
        add_cookies-fits (e1 ++ e2) cookies given s3 (omega (arith, c1, c2, d1, d2, d3, d4, room)),
        compute_message-fits ((e1 ++ e2) ++ h) [] (omega (arith, c1, c2, d1, d2, d3, d4, d5, room)),
      )
      (ap (λ t. ok (t ++ crlf)) (append_assoc e1 e2 h))

-- The lines of a GET request.
abbrev pub get_header :
    (host url : List ℕ) (query_params : Option (List ℕ)) (cookies : Option (List (List ℕ)))
    → List (List ℕ)
get_header host url query_params cookies =
    request_line url query_params ∷ (codes "Host: " ++ host) ∷ cookie_lines cookies

-- `compute_get_request` writes the request line, the host, the cookies if there are any, and the empty
-- line, if each line has fewer than 1000 characters and the request fewer than 4096.
compute_get_request-request :
    (host url : List ℕ) (query_params : Option (List ℕ)) (cookies : Option (List (List ℕ)))
    → HasCookies cookies
    → AreShort (get_header host url query_params cookies)
    → length (request (get_header host url query_params cookies) []) < buflen
    → compute_get_request host url query_params cookies
      ≡ ok (request (get_header host url query_params cookies) [])
unfolding compute_get_request
compute_get_request-request host url query_params cookies given short room =
    get_lines (request_line url query_params) (codes "Host: " ++ host) cookies given short room
