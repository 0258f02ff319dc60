-- ===== src/Exam/Relay.antt =====
-- A text typed at a client of test_practic, on its way through the server to another client.
use protocoale_de_comunicati.Common.{
  ℕ, zero, suc, ◌+◌, ◌*◌, ◌-◌, ◌≤◌, ◌<◌, ◌≡◌, refl, ap, Bool, false, some, List, [], ◌∷◌, ◌++◌, ltb,
  ◌==◌, arith, length, take, ok, ◌>>=◌, codes,
}
use protocoale_de_comunicati.Http.Client.{strtol, signed_digits, digits, int_of_long}
use protocoale_de_comunicati.Subscriber.{strtok, is_delim, padded, c_text, space}
use protocoale_de_comunicati.Subscriber.Typed.{strtok_word, length-padded}
use protocoale_de_comunicati.Subscriber.Id.{HasNoNul}
use protocoale_de_comunicati.Exam.{
  Server, TcpClient, handle_tcp_message, relay, nr_dest, minus_one, max_len, message_size,
}
use protocoale_de_comunicati.Exam.Client.{
  handle_stdin_message, handle_server_message, command_msg, message, cut, le32,
}

-- The line `MSG D TEXT`.
abbrev pub msg_line : (number text : List ℕ) → List ℕ
msg_line number text = codes "MSG " ++ (number ++ 32 ∷ text)

c_text_whole : (text : List ℕ) → HasNoNul text → c_text text ≡ text
c_text_whole [] n = refl
c_text_whole (zero ∷ cs) (n, ns) = absurd (n refl)
c_text_whole (suc c ∷ cs) (n, ns) = ap (λ t. suc c ∷ t) (c_text_whole cs ns)

c_text-padded :
    (n : ℕ) (text : List ℕ) → HasNoNul text → length text < n → c_text (padded n text) ≡ text
unfolding padded
c_text-padded zero text n lt = absurd (omega arith)
c_text-padded (suc room) [] n lt = refl
c_text-padded (suc room) (zero ∷ cs) (n, ns) lt = absurd (n refl)
c_text-padded (suc room) (suc c ∷ cs) (n, ns) lt =
    ap (λ t. suc c ∷ t) (c_text-padded room cs ns (omega arith))

take-padded : (n k : ℕ) (text : List ℕ) → n ≤ k → take n (padded k text) ≡ padded n text
unfolding padded
take-padded zero k text le = refl
take-padded (suc n) zero text le = absurd (omega arith)
take-padded (suc n) (suc k) [] le = ap (λ t. 0 ∷ t) (take-padded n k [] (omega arith))
take-padded (suc n) (suc k) (c ∷ cs) le = ap (λ t. c ∷ t) (take-padded n k cs (omega arith))

strtol_digit : (d : ℕ) → 48 ≤ d → d ≤ 57 → strtol (d ∷ 0 ∷ []) ≡ ok (d - 48)
unfolding strtol signed_digits digits
strtol_digit d lo hi = ground arith

-- What `strtok` makes of a number of one digit or two, and of the text behind it.
module _ (d : ℕ) (text : List ℕ) (d_lo : 48 ≤ d) where
  strtok_digit : strtok space (d ∷ 32 ∷ text) ≡ some (d ∷ [], text)
  unfolding is_delim
  strtok_digit = strtok_word space d [] 32 text (omega arith, ground arith, tt) refl

  cut_digit : cut (d ∷ 32 ∷ text) ≡ d ∷ 0 ∷ text
  unfolding cut
  cut_digit = let not_space : (d == 32) ≡ false = ground arith in rw not_space refl

  module _ (e : ℕ) (e_lo : 48 ≤ e) where
    strtok_digits : strtok space (d ∷ e ∷ 32 ∷ text) ≡ some (d ∷ e ∷ [], text)
    unfolding is_delim
    strtok_digits =
        strtok_word space d (e ∷ []) 32 text
          (omega arith, ground arith, (omega arith, ground arith, tt)) refl

    cut_digits : cut (d ∷ e ∷ 32 ∷ text) ≡ d ∷ e ∷ 0 ∷ text
    unfolding cut
    cut_digits =
        let not_space : (d == 32) ≡ false = ground arith in
        let not_space' : (e == 32) ≡ false = ground arith in rw (not_space, not_space') refl

command_msg_digit :
    (d : ℕ) (text : List ℕ)
    → 48 ≤ d
    → d ≤ 57
    → HasNoNul text
    → length text ≤ 50
    → command_msg (msg_line (d ∷ []) text) ≡ ok (le32 (d - 48) ++ padded 52 text)
unfolding command_msg message
command_msg_digit d text lo hi n short =
    let value : int_of_long (d - 48) ≡ d - 48 = omega arith in
    let fits : ltb 50 (length text) ≡ false = ground arith in
    let long : ltb (suc (suc (suc (suc (suc (suc (length text))))))) 6 ≡ false = ground arith in
    rw
      (
        long,
        strtok_digit d text lo,
        cut_digit d text lo,
        strtol_digit d lo hi,
        value,
        c_text_whole text n,
        fits,
      )
      refl

strtol_digits :
    (d e : ℕ)
    → 48 ≤ d
    → d ≤ 57
    → 48 ≤ e
    → e ≤ 57
    → strtol (d ∷ e ∷ 0 ∷ []) ≡ ok ((d - 48) * 10 + (e - 48))
unfolding strtol signed_digits digits
strtol_digits d e lo hi lo' hi' = ground arith

-- On a number of two digits the client sends a message without its text.
command_msg_digits :
    (d e : ℕ) (text : List ℕ)
    → 48 ≤ d
    → d ≤ 57
    → 48 ≤ e
    → e ≤ 57
    → command_msg (msg_line (d ∷ e ∷ []) text)
      ≡ ok (le32 ((d - 48) * 10 + (e - 48)) ++ padded 52 [])
unfolding command_msg message
command_msg_digits d e text lo hi lo' hi' =
    let v = (d - 48) * 10 + (e - 48) in
    let value : int_of_long v ≡ v = omega arith in
    let long : ltb (suc (suc (suc (suc (suc (suc (suc (length text)))))))) 6 ≡ false =
      ground arith in
    rw
      (
        long,
        strtok_digits d text lo e lo',
        cut_digits d text lo e lo',
        strtol_digits d e lo hi lo' hi',
        value,
      )
      refl

-- What the server does with a message for a client.
handle_tcp_message-message :
    (order : List TcpClient → List TcpClient) (send_fails : ℕ → Bool) (i n socket : ℕ)
    (text : List ℕ) (s : Server)
    → n < 256
    → s.active_nrs_sockets n ≡ some socket
    → send_fails socket ≡ false
    → handle_tcp_message order send_fails i (some (le32 n ++ padded 52 text)) s
      ≡ ok (s, (socket, padded max_len text) ∷ [])
unfolding handle_tcp_message relay le32
handle_tcp_message-message order send_fails i n socket text s lt here works =
    let number : nr_dest (le32 n ++ padded 52 text) ≡ n = omega arith in
    let size : length (padded 52 text) ≡ 52 = length-padded 52 text in
    let fits : ltb message_size (suc (suc (suc (suc (length (padded 52 text)))))) ≡ false =
      rw size refl in
    let not_list : (n == minus_one) ≡ false = ground arith in
    rw (fits, number, not_list, relay, here, works, take-padded max_len 52 text (omega arith)) refl

-- A text of 1 to 50 characters that is typed at a client for the client with a number below 10 is
-- sent by the server to the socket of that client and to no other, nothing else changes, and the client
-- there prints the text.
pub msg_line-handle_server_message :
    (order : List TcpClient → List TcpClient) (send_fails : ℕ → Bool) (i d socket : ℕ) (c : ℕ)
    (cs : List ℕ) (s : Server)
    → 48 ≤ d
    → d ≤ 57
    → HasNoNul (c ∷ cs)
    → length (c ∷ cs) ≤ 50
    → s.active_nrs_sockets (d - 48) ≡ some socket
    → send_fails socket ≡ false
    → ((handle_stdin_message false (msg_line (d ∷ []) (c ∷ cs)) >>= λ bytes.
          handle_tcp_message order send_fails i (some bytes) s)
        ≡ ok (s, (socket, padded max_len (c ∷ cs)) ∷ []))
      × (handle_server_message (some (padded max_len (c ∷ cs))) ≡ ok ((c ∷ cs) ++ codes "\n"))
unfolding handle_stdin_message handle_server_message
msg_line-handle_server_message order send_fails i d socket c cs s lo hi n short here works = (
  rw
      (
        command_msg_digit d (c ∷ cs) lo hi n short,
        handle_tcp_message-message order send_fails i (d - 48) socket (c ∷ cs) s (omega arith) here
            works,
      )
      refl,
  ap (λ t. ok (t ++ codes "\n")) (c_text-padded max_len (c ∷ cs) n (omega arith)),
)

-- When the number has two digits, the text is lost, whatever it is: the server sends 51 zeros to the
-- socket of that client, and the client there prints an empty line.
pub msg_line-loses_text :
    (order : List TcpClient → List TcpClient) (send_fails : ℕ → Bool) (i d e socket : ℕ)
    (text : List ℕ) (s : Server)
    → 48 ≤ d
    → d ≤ 57
    → 48 ≤ e
    → e ≤ 57
    → s.active_nrs_sockets ((d - 48) * 10 + (e - 48)) ≡ some socket
    → send_fails socket ≡ false
    → ((handle_stdin_message false (msg_line (d ∷ e ∷ []) text) >>= λ bytes.
          handle_tcp_message order send_fails i (some bytes) s)
        ≡ ok (s, (socket, padded max_len []) ∷ []))
      × (handle_server_message (some (padded max_len [])) ≡ ok (codes "\n"))
unfolding handle_stdin_message handle_server_message padded
msg_line-loses_text order send_fails i d e socket text s lo hi lo' hi' here works = (
  rw
      (
        command_msg_digits d e text lo hi lo' hi',
        handle_tcp_message-message order send_fails i ((d - 48) * 10 + (e - 48)) socket [] s
            (omega arith) here works,
      )
      refl,
  refl,
)
