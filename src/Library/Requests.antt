-- ===== src/Library/Requests.antt =====
-- tema3/requests.cpp, and what it shares with laboratoare/lab-10/requests.c.
use protocoale_de_comunicati.Common.{
  ℕ, Option, none, some, List, [], ◌++◌, length, codes, Outcome, ok, ◌>>=◌,
}
use protocoale_de_comunicati.Http.Requests.{
  buflen, linelen, strcat, compute_message, add_line, add_cookies, request_line, decimal,
}

-- The header with the token, if there is one.
unfoldable pub add_authorization :
    (message : List ℕ) → (authorization : Option (List ℕ)) → Outcome (List ℕ)
add_authorization message none = ok message
add_authorization message (some token) = do
  l1 ← strcat linelen [] (codes "Authorization: Bearer ")
  l2 ← strcat linelen l1 token
  compute_message message l2

unfoldable pub compute_get_request :
    (host url : List ℕ)
    → (query_params : Option (List ℕ)) → (cookies : Option (List (List ℕ)))
    → (authorization : Option (List ℕ)) → Outcome (List ℕ)
unfolding add_authorization
compute_get_request host url query_params cookies authorization = do
  m1 ← add_line [] (request_line url query_params)
  m2 ← add_line m1 (codes "Host: " ++ host)
  m3 ← add_authorization m2 authorization
  m4 ← add_cookies m3 cookies
  compute_message m4 []

unfoldable pub compute_post_request :
    (host url content_type body_data : List ℕ)
    → (cookies : Option (List (List ℕ))) → (authorization : Option (List ℕ)) → Outcome (List ℕ)
unfolding add_authorization
compute_post_request host url content_type body_data cookies authorization = do
  m1 ← add_line [] (codes "POST " ++ (url ++ codes " HTTP/1.1"))
  m2 ← add_line m1 (codes "Host: " ++ host)
  m3 ← add_line m2 (codes "Content-Type: " ++ content_type)
  m4 ← add_line m3 (codes "Content-Length: " ++ decimal (length body_data))
  m5 ← add_authorization m4 authorization
  m6 ← add_cookies m5 cookies
  m7 ← compute_message m6 []
  strcat buflen m7 body_data

unfoldable pub delete_line : (url : List ℕ) → (query_params : Option (List ℕ)) → List ℕ
delete_line url none = codes "DELETE " ++ (url ++ codes " HTTP/1.1")
delete_line url (some params) =
    codes "DELETE " ++ (url ++ (codes "?" ++ (params ++ codes " HTTP/1.1")))

unfoldable pub compute_delete_request :
    (host url : List ℕ)
    → (query_params : Option (List ℕ)) → (cookies : Option (List (List ℕ)))
    → (authorization : Option (List ℕ)) → Outcome (List ℕ)
unfolding add_authorization delete_line
compute_delete_request host url query_params cookies authorization = do
  m1 ← add_line [] (delete_line url query_params)
  m2 ← add_line m1 (codes "Host: " ++ host)
  m3 ← add_authorization m2 authorization
  m4 ← add_cookies m3 cookies
  compute_message m4 []
