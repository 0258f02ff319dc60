-- ===== src/Subscriber/Id.antt =====
-- The ID that the client of tema2 sends, and what the server of tema2 reads.
use protocoale_de_comunicati.Common.{
  ℕ, zero, suc, ◌<◌, ◌≡◌, ◌≢◌, refl, true, false, Bool-cases, inl, inr, some, List, [], ◌∷◌, ltb,
  if◌then◌else◌, arith, ok, fault, ◌>>=◌, length, take,
}
use protocoale_de_comunicati.Broker.{Server, c_string, max_id_len, greet, handle_connection_request}
use protocoale_de_comunicati.Subscriber.{send_id, buflen}

abbrev pub HasNoNul : List ℕ → Type 0
HasNoNul [] = Unit
HasNoNul (c ∷ cs) = (c ≢ 0) × HasNoNul cs

c_string-take :
    (room : ℕ) (id : List ℕ)
    → HasNoNul id
    → c_string room (take room id) ≡ (if ltb (length id) room then ok id else fault)
unfolding c_string
c_string-take zero id n = ground arith
c_string-take (suc room) [] n = ground arith
c_string-take (suc room) (zero ∷ cs) (n, ns) = absurd (n refl)
c_string-take (suc room) (suc c ∷ cs) (n, ns) = elim (Bool-cases (ltb (length cs) room)) [
  | inl short ↦
      let all : c_string room (take room cs) ≡ ok cs = rw (c_string-take room cs ns, short) refl in
      let test : ltb (suc (length cs)) (suc room) ≡ true = ground (arith, short) in
      rw (all, test) refl
  | inr long ↦
      let none_left : c_string room (take room cs) ≡ fault =
        rw (c_string-take room cs ns, long) refl in
      let test : ltb (suc (length cs)) (suc room) ≡ false = ground (arith, long) in
      rw (none_left, test) refl
]

-- An ID of up to 10 characters is read by the server as the client sends it. The client sends longer
-- ones too, up to the size of its buffer, and on each the server reads past the end of the array that it
-- receives the first 11 of its bytes in.
pub send_id-handle_connection_request :
    (fd : ℕ) (id : List ℕ) (s : Server)
    → HasNoNul id
    → length id < buflen
    → (send_id false id >>= λ bytes.
        handle_connection_request (some fd) (some (take max_id_len bytes)) s)
      ≡ (if ltb (length id) max_id_len then greet fd id s else fault)
unfolding send_id handle_connection_request
send_id-handle_connection_request fd id s n lt =
    let sent : ltb (length id) buflen ≡ true = ground (arith, lt) in
    elim (Bool-cases (ltb (length id) max_id_len)) [
      | inl short ↦ rw (sent, c_string-take max_id_len id n, short) refl
      | inr long ↦ rw (sent, c_string-take max_id_len id n, long) refl
    ]
