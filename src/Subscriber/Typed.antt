-- ===== src/Subscriber/Typed.antt =====
-- A command typed at the client of tema2, and what the server of tema2 reads.
use protocoale_de_comunicati.Common.{
  ℕ, zero, suc, ◌+◌, ◌≤◌, ◌<◌, ◌≡◌, ◌≢◌, refl, ap, true, false, some, List, [], ◌∷◌, ◌++◌, ltb,
  arith, ok, ◌>>=◌, length, codes, get_elem?,
}
use protocoale_de_comunicati.Common.Maps.{assign, string_key}
use protocoale_de_comunicati.Broker.{
  TcpClient, Subscription, Server, c_string, topic_len, byte_at, handle_tcp_message, handle_request,
  request,
}
use protocoale_de_comunicati.Broker
use protocoale_de_comunicati.Subscriber.{
  is_delim, skip_delims, token, strtok, padded, client_request, subscribe, unsubscribe,
  handle_stdin_message, space, space_or_newline, command_subscribe, command_unsubscribe,
}

-- No character is a delimiter, or 0.
abbrev pub IsWord : (delims : List ℕ) → List ℕ → Type 0
IsWord delims [] = Unit
IsWord delims (c ∷ cs) = (c ≢ 0) × (is_delim delims c ≡ false) × IsWord delims cs

token_word :
    (delims word : List ℕ) (d : ℕ) (rest : List ℕ)
    → IsWord delims word
    → is_delim delims d ≡ true
    → token delims (word ++ d ∷ rest) ≡ (word, rest)
unfolding token
token_word delims [] d rest w e = rw e refl
token_word delims (c ∷ cs) d rest (n, f, w) e = rw (f, token_word delims cs d rest w e) refl

pub strtok_word :
    (delims : List ℕ) (c : ℕ) (cs : List ℕ) (d : ℕ) (rest : List ℕ)
    → IsWord delims (c ∷ cs)
    → is_delim delims d ≡ true
    → strtok delims (c ∷ (cs ++ d ∷ rest)) ≡ some (c ∷ cs, rest)
unfolding strtok
strtok_word delims c cs d rest (n, f, w) e =
    let whole : token delims (c ∷ (cs ++ d ∷ rest)) ≡ (c ∷ cs, rest) =
      token_word delims (c ∷ cs) d rest (n, f, w) e in
    let found : skip_delims delims (c ∷ (cs ++ d ∷ rest)) ≡ c ∷ (cs ++ d ∷ rest) =
      unfold skip_delims in rw f refl in
    rw (found, strtok) (ap some whole)

-- The topic of a request is read as it was written.
c_string-padded :
    (room : ℕ) (delims topic rest : List ℕ)
    → IsWord delims topic
    → length topic < room
    → c_string room (padded room topic ++ rest) ≡ ok topic
unfolding c_string padded
c_string-padded zero delims topic rest w lt = absurd (omega arith)
c_string-padded (suc room) delims [] rest w lt = refl
c_string-padded (suc room) delims (zero ∷ cs) rest (n, f, w) lt = absurd (n refl)
c_string-padded (suc room) delims (suc c ∷ cs) rest (n, f, w) lt =
    rw (c_string-padded room delims cs rest w (omega arith)) refl

pub length-padded : (n : ℕ) (topic : List ℕ) → length (padded n topic) ≡ n
unfolding padded
length-padded zero topic = refl
length-padded (suc n) [] = omega (arith, length-padded n [])
length-padded (suc n) (c ∷ cs) = omega (arith, length-padded n cs)

get_elem?-append :
    (xs rest : List ℕ) (k i : ℕ) → k ≡ length xs + i → get_elem? (xs ++ rest) k ≡ get_elem? rest i
get_elem?-append [] rest k i e = ap (get_elem? rest) (omega arith)
get_elem?-append (x ∷ xs) rest zero i e = absurd (omega arith)
get_elem?-append (x ∷ xs) rest (suc k) i e = get_elem?-append xs rest k i (omega arith)

-- What the server makes of a request from the client on descriptor `i`.
handle_request-client_request :
    (s : Server) (i : ℕ) (c : TcpClient) (subs : List Subscription) (delims topic : List ℕ)
    (sf req_type : ℕ)
    → IsWord delims topic
    → length topic ≤ topic_len
    → s.topics_subs topic ≡ some subs
    → s.active_clients i ≡ some c
    → handle_request i (padded (topic_len + 1) topic ++ (sf ∷ req_type ∷ [])) s
      ≡ ok (
        record s { topics_subs = assign topic (request c topic sf req_type subs) s.topics_subs },
        [],
      )
unfolding handle_request
handle_request-client_request s i c subs delims topic sf req_type w short at here =
    let tail : List ℕ = sf ∷ req_type ∷ [] in
    let long : length (padded 51 topic) ≡ 51 = length-padded 51 topic in
    let sf_is : get_elem? (padded 51 topic ++ tail) 51 ≡ some sf =
      get_elem?-append (padded 51 topic) tail 51 0 (omega arith) in
    let type_is : get_elem? (padded 51 topic ++ tail) 52 ≡ some req_type =
      get_elem?-append (padded 51 topic) tail 52 1 (omega arith) in
    let topic_is : c_string 51 (padded 51 topic ++ tail) ≡ ok topic =
      c_string-padded 51 delims topic tail w (omega arith) in
    let sf_byte : byte_at (padded (topic_len + 1) topic ++ tail) (topic_len + 1) ≡ sf =
      rw (sf_is, byte_at) refl in
    let type_byte : byte_at (padded (topic_len + 1) topic ++ tail) (topic_len + 2) ≡ req_type =
      rw (type_is, byte_at) refl in
    rw (topic_is, at, here, sf_byte, type_byte) refl

-- The line `subscribe TOPIC SF` at the client, of which `sf` is the first character of SF.
abbrev pub subscribe_line : (topic : List ℕ) → (sf : ℕ) → List ℕ
subscribe_line topic sf = codes "subscribe " ++ (topic ++ 32 ∷ sf ∷ 10 ∷ [])

abbrev pub unsubscribe_line : (topic : List ℕ) → List ℕ
unsubscribe_line topic = codes "unsubscribe " ++ (topic ++ 10 ∷ [])

IsWord-space : (word : List ℕ) → IsWord space_or_newline word → IsWord space word
unfolding is_delim
IsWord-space [] w = tt
IsWord-space (c ∷ cs) (n, d, w) = (n, ground (arith, d), IsWord-space cs w)

handle_stdin_message-subscribe_line :
    (c : ℕ) (cs : List ℕ) (sf : ℕ)
    → IsWord space (c ∷ cs)
    → IsWord space_or_newline (sf ∷ [])
    → length (c ∷ cs) ≤ topic_len
    → handle_stdin_message false (subscribe_line (c ∷ cs) sf)
      ≡ ok (padded (topic_len + 1) (c ∷ cs) ++ (sf ∷ b'0' ∷ []))
unfolding handle_stdin_message subscribe client_request
handle_stdin_message-subscribe_line c cs sf w v short =
    let command : strtok space (subscribe_line (c ∷ cs) sf)
        ≡ some (codes "subscribe", c ∷ (cs ++ 32 ∷ sf ∷ 10 ∷ [])) =
      unfold strtok in refl in
    let topic : strtok space (c ∷ (cs ++ 32 ∷ sf ∷ 10 ∷ [])) ≡ some (c ∷ cs, sf ∷ 10 ∷ []) =
      strtok_word space c cs 32 (sf ∷ 10 ∷ []) w (unfold is_delim in refl) in
    let flag : strtok space_or_newline (sf ∷ 10 ∷ []) ≡ some (sf ∷ [], []) =
      strtok_word space_or_newline sf [] 10 [] v (unfold is_delim in refl) in
    let fits : ltb 53 (length (c ∷ cs)) ≡ false = ground (arith, short) in
    rw (command, command_subscribe, topic, flag, fits) refl

handle_stdin_message-unsubscribe_line :
    (c : ℕ) (cs : List ℕ)
    → IsWord space_or_newline (c ∷ cs)
    → length (c ∷ cs) ≤ topic_len
    → handle_stdin_message false (unsubscribe_line (c ∷ cs))
      ≡ ok (padded (topic_len + 1) (c ∷ cs) ++ (0 ∷ b'1' ∷ []))
unfolding handle_stdin_message unsubscribe client_request
handle_stdin_message-unsubscribe_line c cs w short =
    let command : strtok space (unsubscribe_line (c ∷ cs))
        ≡ some (codes "unsubscribe", c ∷ (cs ++ 10 ∷ [])) =
      unfold strtok in refl in
    let topic : strtok space_or_newline (c ∷ (cs ++ 10 ∷ [])) ≡ some (c ∷ cs, []) =
      strtok_word space_or_newline c cs 10 [] w (unfold is_delim in refl) in
    let fits : ltb 53 (length (c ∷ cs)) ≡ false = ground (arith, short) in
    rw (command, command_unsubscribe, topic, fits) refl

-- What the line `subscribe TOPIC SF` at the client sends, the server reads as a request of its client
-- for this topic and this flag, and what the line `unsubscribe TOPIC` sends, as one to end the
-- subscription; only the list of this topic changes. The topic has 1 to 50 characters, none of them a
-- space or a newline, and something has been published on it.
pub typed-handle_tcp_message :
    (s : Server) (i : ℕ) (client : TcpClient) (subs : List Subscription) (c : ℕ) (cs : List ℕ)
    (sf : ℕ)
    → IsWord space_or_newline (c ∷ cs)
    → IsWord space_or_newline (sf ∷ [])
    → length (c ∷ cs) ≤ topic_len
    → s.topics_subs (c ∷ cs) ≡ some subs
    → s.active_clients i ≡ some client
    → ((handle_stdin_message false (subscribe_line (c ∷ cs) sf) >>= λ bytes.
          handle_tcp_message i (some bytes) s)
        ≡ ok (
          record s {
            topics_subs = assign (c ∷ cs) (Broker.subscribe client sf subs) s.topics_subs;
          },
          [],
        ))
      × ((handle_stdin_message false (unsubscribe_line (c ∷ cs)) >>= λ bytes.
            handle_tcp_message i (some bytes) s)
          ≡ ok (
            record s {
              topics_subs = assign (c ∷ cs) (Broker.unsubscribe client.id subs) s.topics_subs;
            },
            [],
          ))
unfolding handle_tcp_message request padded
typed-handle_tcp_message s i client subs c cs sf w v short at here =
    let w' : IsWord space (c ∷ cs) = IsWord-space (c ∷ cs) w in
    (
      rw (handle_stdin_message-subscribe_line c cs sf w' v short) (
          handle_request-client_request s i client subs space_or_newline (c ∷ cs) sf b'0' w short at
            here),
      rw (handle_stdin_message-unsubscribe_line c cs w short) (
          handle_request-client_request s i client subs space_or_newline (c ∷ cs) 0 b'1' w short at
            here),
    )
