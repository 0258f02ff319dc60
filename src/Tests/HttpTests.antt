-- ===== src/Tests/HttpTests.antt =====
-- The theorems on the HTTP client, each applied at concrete values.
use protocoale_de_comunicati.Common.{
  ℕ, ◌≡◌, refl, Option, none, some, List, [], ◌∷◌, ◌++◌, arith, codes, ok, Returns,
}
use protocoale_de_comunicati.Http.Buffer.{
  Buffer, buffer_init, buffer_add, contents, find_from, matches_at, buffer_find,
  buffer_find_insensitive, tolower,
}
use protocoale_de_comunicati.Http.Buffer.Find.{IsBuffer, buffer_add-append}
use protocoale_de_comunicati.Http.Client.{
  send_to_server, strtol, signed_digits, digits, receive_header, receive_body, receive_from_server,
}
use protocoale_de_comunicati.Http.Client.Sending.{send_to_server_all}
use protocoale_de_comunicati.Http.Client.Ends.{Ends}
use protocoale_de_comunicati.Http.Client.Chunks.{Reads, stream}

abbrev page : Buffer
page = record { data_block = some (codes "content-length: 3"); size = 17 }

find_test :
    (buffer_find page (codes "Length") ≡ none)
    × (buffer_find_insensitive page (codes "Length") ≡ some 8)
unfolding buffer_find buffer_find_insensitive find_from matches_at tolower
find_test = (refl, refl)

buffer_add-append_example :
    Returns
      (λ b. IsBuffer b × (contents b ≡ contents page ++ codes "5"))
      (buffer_add page (codes "5"))
buffer_add-append_example = buffer_add-append page (codes "5") refl (omega arith)

-- One byte at a time.
send_to_server_all_example :
    send_to_server (λ k n. some 1) (codes "GET / HTTP/1.1") ≡ ok (codes "GET / HTTP/1.1")
send_to_server_all_example =
    send_to_server_all (λ k n. some 1) (codes "GET / HTTP/1.1")
      (λ k n positive. (1, refl, omega arith, omega arith)) (omega arith) (omega arith)

-- A response in four reads, with the end of its header cut in two.
abbrev pieces : Reads
pieces =
    some (codes "HTTP/1.1 200 OK" ++ (13 ∷ 10 ∷ codes "Content-Le"))
    ∷ some (codes "ngth: 5" ++ (13 ∷ 10 ∷ 13 ∷ []))
    ∷ some (10 ∷ codes "he")
    ∷ some (codes "llo")
    ∷ []

receive_test :
    receive_from_server (pieces ++ (some (codes "more") ∷ []))
    ≡ ok (stream pieces ++ (0 ∷ []), some (codes "more") ∷ [])
unfolding receive_from_server receive_header receive_body buffer_init buffer_add buffer_find
    buffer_find_insensitive find_from matches_at tolower strtol signed_digits digits
receive_test = refl

abbrev two_cookies : Option (List (List ℕ))
two_cookies = some (codes "c=2" ∷ codes "d=3" ∷ [])
