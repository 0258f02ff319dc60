-- ===== src/Http/Requests/Post.antt =====
-- The text of the POST requests of laboratoare/lab-10/requests.c.
use mathlib.Core.List.{append_assoc}
use protocoale_de_comunicati.Common.{
  ℕ, ◌+◌, ◌<◌, ◌≡◌, refl, ap, ◌∙◌, arith, Option, List, [], ◌∷◌, ◌++◌, length, length-append, codes,
  ok, ◌>>=◌,
}
use protocoale_de_comunicati.Http.Requests.{
  strcat, buflen, linelen, crlf, compute_message, add_line, add_fields, add_cookies, decimal,
  body_data_size, compute_post_request,
}
use protocoale_de_comunicati.Http.Requests.Text.{
  join, strcat-fits, compute_message-fits, add_line-fits, add_fields-fits, header, request,
  cookie_lines, AreShort, HasCookies, add_cookies-fits,
}

body_data_size-join :
    (fields : List (List ℕ)) → body_data_size fields ≡ length (join (codes "&") fields)
unfolding body_data_size
body_data_size-join [] = refl
body_data_size-join (f ∷ []) = refl
body_data_size-join (f ∷ g ∷ fields) = omega (
  arith,
  body_data_size-join (g ∷ fields),
  length-append f (codes "&" ++ join (codes "&") (g ∷ fields)),
)

-- Four lines, the cookies `h`, and the body, as they are appended one after the other.
module _ (e1 e2 e3 e4 h body : List ℕ) where
  blocks_length :
      length ((e1 ++ (e2 ++ (e3 ++ (e4 ++ h)))) ++ (crlf ++ body))
      ≡ length e1 + (length e2 + (length e3 + (length e4 + length h))) + 2 + length body
  blocks_length = omega (
    arith,
    length-append (e1 ++ (e2 ++ (e3 ++ (e4 ++ h)))) (crlf ++ body),
    length-append e1 (e2 ++ (e3 ++ (e4 ++ h))),
    length-append e2 (e3 ++ (e4 ++ h)),
    length-append e3 (e4 ++ h),
    length-append e4 h,
  )

  blocks_assoc :
      (((((e1 ++ e2) ++ e3) ++ e4) ++ h) ++ crlf) ++ body
      ≡ (e1 ++ (e2 ++ (e3 ++ (e4 ++ h)))) ++ (crlf ++ body)
  blocks_assoc =
      append_assoc ((((e1 ++ e2) ++ e3) ++ e4) ++ h) crlf body
      ∙ ap (λ t. t ++ (crlf ++ body))
          (append_assoc ((e1 ++ e2) ++ e3) e4 h
            ∙ append_assoc (e1 ++ e2) e3 (e4 ++ h)
            ∙ append_assoc e1 e2 (e3 ++ (e4 ++ h)))

module _ (l1 l2 l3 l4 separator f : List ℕ) (fields : List (List ℕ))
    (cookies : Option (List (List ℕ))) where
  post_lines :
      let lines = l1 ∷ l2 ∷ l3 ∷ l4 ∷ cookie_lines cookies in
      let body = join separator (f ∷ fields) in
      HasCookies cookies
      → AreShort lines
      → length body < linelen
      → length (request lines body) < buflen
      → (add_line [] l1 >>= λ m1. add_line m1 l2 >>= λ m2.
          add_fields [] separator (f ∷ fields) >>= λ b. add_line m2 l3 >>= λ m3.
          add_line m3 l4 >>= λ m4.
          add_cookies m4 cookies >>= λ m5. compute_message m5 [] >>= λ m6. strcat buflen m6 b)
        ≡ ok (request lines body)
  post_lines given (s1, (s2, (s3, (s4, s5)))) small room =
      let h : List ℕ = header (cookie_lines cookies) in
      let body : List ℕ = join separator (f ∷ fields) in
      let e1 : List ℕ = l1 ++ crlf in
      let e2 : List ℕ = l2 ++ crlf in
      let e3 : List ℕ = l3 ++ crlf in
      let e4 : List ℕ = l4 ++ crlf in
      let c1 : length e1 ≡ length l1 + 2 = length-append l1 crlf in
      let c2 : length e2 ≡ length l2 + 2 = length-append l2 crlf in
      let c3 : length e3 ≡ length l3 + 2 = length-append l3 crlf in
      let c4 : length e4 ≡ length l4 + 2 = length-append l4 crlf in
      let total : length e1 + (length e2 + (length e3 + (length e4 + length h))) + 2 + length body
          < buflen =
        omega (arith, blocks_length e1 e2 e3 e4 h body, room) in
      let d2 = length-append e1 e2 in
      let d3 = length-append (e1 ++ e2) e3 in
      let d4 = length-append ((e1 ++ e2) ++ e3) e4 in
      let d5 = length-append (((e1 ++ e2) ++ e3) ++ e4) h in
      let d6 = length-append ((((e1 ++ e2) ++ e3) ++ e4) ++ h) crlf in
      rw
        (
          add_line-fits [] l1 s1 (omega (arith, c1, total)),
          add_line-fits e1 l2 s2 (omega (arith, c1, c2, total)),
          add_fields-fits [] separator f fields (omega (arith, small)),
          add_line-fits (e1 ++ e2) l3 s3 (omega (arith, c3, d2, total)),
          add_line-fits ((e1 ++ e2) ++ e3) l4 s4 (omega (arith, c4, d2, d3, total)),
          add_cookies-fits (((e1 ++ e2) ++ e3) ++ e4) cookies given s5
              (omega (arith, d2, d3, d4, total)),
          compute_message-fits ((((e1 ++ e2) ++ e3) ++ e4) ++ h) []
              (omega (arith, d2, d3, d4, d5, total)),
          strcat-fits buflen (((((e1 ++ e2) ++ e3) ++ e4) ++ h) ++ crlf) body
              (omega (arith, d2, d3, d4, d5, d6, total)),
        )
        (ap ok (blocks_assoc e1 e2 e3 e4 h body))

abbrev pub body_of : List (List ℕ) → List ℕ
body_of fields = join (codes "&") fields

-- The lines of a POST request with a body.
abbrev pub post_header :
    (host url content_type body : List ℕ) (cookies : Option (List (List ℕ))) → List (List ℕ)
post_header host url content_type body cookies =
    (codes "POST " ++ (url ++ codes " HTTP/1.1"))
    ∷ (codes "Host: " ++ host)
    ∷ (codes "Content-Type: " ++ content_type)
    ∷ (codes "Content-Length: " ++ decimal (length body))
    ∷ cookie_lines cookies

-- `compute_post_request` writes the request line, the host, the type and the length of the body, the
-- cookies if there are any, the empty line and the body, which is the fields with `&` between them; the
-- length written is that of the body. The lines and the body have fewer than 1000 characters, the
-- request fewer than 4096.
compute_post_request-request :
    (host url content_type f : List ℕ) (fields : List (List ℕ)) (cookies : Option (List (List ℕ)))
    → HasCookies cookies
    → AreShort (post_header host url content_type (body_of (f ∷ fields)) cookies)
    → length (body_of (f ∷ fields)) < linelen
    → length (
        request
          (post_header host url content_type (body_of (f ∷ fields)) cookies)
          (body_of (f ∷ fields)))
      < buflen
    → compute_post_request host url content_type (f ∷ fields) cookies
      ≡ ok (
          request
            (post_header host url content_type (body_of (f ∷ fields)) cookies)
            (body_of (f ∷ fields)))
unfolding compute_post_request
compute_post_request-request host url content_type f fields cookies given short small room =
    rw (body_data_size-join (f ∷ fields)) (
      post_lines (codes "POST " ++ (url ++ codes " HTTP/1.1")) (codes "Host: " ++ host)
        (codes "Content-Type: " ++ content_type)
        (codes "Content-Length: " ++ decimal (length (join (codes "&") (f ∷ fields)))) (codes "&") f
        fields cookies given short small room)
