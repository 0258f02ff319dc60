-- ===== src/Http/Requests.antt =====
-- laboratoare/lab-10/requests.c, and compute_message of helpers.c. A string stands for its bytes
-- before the NUL; an array is told by its length.
pub mod Decimal
pub mod Text
pub mod Post
use protocoale_de_comunicati.Common.{
  ℕ, zero, suc, ◌+◌, ◌-◌, ◌*◌, ◌/◌, ◌%◌, Bool, true, false, Option, none, some, List, [], ◌∷◌, ◌++◌,
  length, ltb, if◌then◌else◌, codes, Outcome, ok, fault, ◌>>=◌,
}

abbrev pub buflen : ℕ
buflen = 4096

abbrev pub linelen : ℕ
linelen = 1000

-- `strcat` on an array of the given length, which needs room for the NUL; also `sprintf`, which
-- starts from nothing.
unfoldable pub strcat : (len : ℕ) → (dest src : List ℕ) → Outcome (List ℕ)
strcat len dest src = if ltb (length dest + length src) len then ok (dest ++ src) else fault

abbrev pub crlf : List ℕ
crlf = 13 ∷ 10 ∷ []

unfoldable pub compute_message : (message line : List ℕ) → Outcome (List ℕ)
compute_message message line = strcat buflen message line >>= λ m. strcat buflen m crlf

-- `sprintf` to `line`, and `compute_message`.
unfoldable pub add_line : (message line : List ℕ) → Outcome (List ℕ)
unfolding compute_message
add_line message line = strcat linelen [] line >>= λ l. compute_message message l

-- The loops over cookies and fields, with the last one after the loop; without any, the code reads
-- in front of the array.
unfoldable pub add_fields :
    (line : List ℕ) → (separator : List ℕ) → List (List ℕ) → Outcome (List ℕ)
add_fields line separator [] = fault
add_fields line separator (f ∷ []) = strcat linelen line f
add_fields line separator (f ∷ g ∷ fields) = strcat linelen line f >>= λ l.
    strcat linelen l separator >>= λ l'. add_fields l' separator (g ∷ fields)

-- The `Cookie` header, if there are cookies.
unfoldable pub add_cookies : (message : List ℕ) → Option (List (List ℕ)) → Outcome (List ℕ)
unfolding compute_message add_fields
add_cookies message none = ok message
add_cookies message (some cookies) = strcat linelen [] (codes "Cookie: ") >>= λ l.
    add_fields l (codes ";") cookies >>= λ l'. compute_message message l'

unfoldable pub request_line : (url : List ℕ) → (query_params : Option (List ℕ)) → List ℕ
request_line url none = codes "GET " ++ (url ++ codes " HTTP/1.1")
request_line url (some params) =
    codes "GET " ++ (url ++ (codes "?" ++ (params ++ codes " HTTP/1.1")))

unfoldable pub compute_get_request :
    (host url : List ℕ)
    → (query_params : Option (List ℕ)) → (cookies : Option (List (List ℕ))) → Outcome (List ℕ)
unfolding add_line add_cookies request_line compute_message
compute_get_request host url query_params cookies = do
  m1 ← add_line [] (request_line url query_params)
  m2 ← add_line m1 (codes "Host: " ++ host)
  m3 ← add_cookies m2 cookies
  compute_message m3 []

-- `%d` of a number that is not negative, in front of what comes after it; the fuel bounds the digits.
unfoldable pub decimal_from : (fuel n : ℕ) → (rest : List ℕ) → List ℕ
decimal_from zero n rest = rest
decimal_from (suc fuel) n rest =
    let more = decimal_from fuel (n / 10) ((48 + n % 10) ∷ rest) in
    if ltb n 10 then (48 + n) ∷ rest else more

unfoldable pub decimal : ℕ → List ℕ
decimal n = decimal_from (suc n) n []

-- `body_data_size`.
unfoldable pub body_data_size : List (List ℕ) → ℕ
body_data_size [] = 0
body_data_size (f ∷ []) = length f
body_data_size (f ∷ g ∷ fields) = length f + 1 + body_data_size (g ∷ fields)

unfoldable pub compute_post_request :
    (host url content_type : List ℕ)
    → (body_data : List (List ℕ)) → (cookies : Option (List (List ℕ))) → Outcome (List ℕ)
unfolding add_line add_cookies add_fields decimal body_data_size compute_message
compute_post_request host url content_type body_data cookies = do
  m1 ← add_line [] (codes "POST " ++ (url ++ codes " HTTP/1.1"))
  m2 ← add_line m1 (codes "Host: " ++ host)
  body_data_buffer ← add_fields [] (codes "&") body_data
  m3 ← add_line m2 (codes "Content-Type: " ++ content_type)
  m4 ← add_line m3 (codes "Content-Length: " ++ decimal (body_data_size body_data))
  m5 ← add_cookies m4 cookies
  m6 ← compute_message m5 []
  strcat buflen m6 body_data_buffer
