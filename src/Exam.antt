-- ===== src/Exam.antt =====
-- The server of test_practic: clients with nicknames get numbers, ask for the list of the clients, and
-- send texts to one another by number. Models test_practic/server.cpp; its client is
-- Exam/Client.antt. What `accept`, `recv` and `getline` return and which calls of `send` fail is a
-- parameter, and so is the order in which an `unordered_map` is gone through. An uncaught C++
-- exception is a fault.
pub mod Client
pub mod Relay
pub mod Deaf
use protocoale_de_comunicati.Common.{
  ℕ, zero, suc, ◌+◌, ◌*◌, Bool, true, false, Option, none, some, List, [], ◌∷◌, ◌++◌, ltb, ◌==◌,
  if◌then◌else◌, length, take, drop, Outcome, ok, exited, fault, ◌>>=◌, codes,
}
use protocoale_de_comunicati.Common.Maps.{UnorderedMap, insert, erase, str_eq, string_key, nat_key}
use protocoale_de_comunicati.Http.Requests.{decimal}
use protocoale_de_comunicati.Broker.{c_string, byte_at}

pub record TcpClient : Type 0 where
  pub number : ℕ
  pub nickname : List ℕ

-- `active_clients` is gone through by LIST: it is a list, whose clients have different nicknames.
pub record Server : Type 0 where
  pub read_fds : ℕ → Bool
  pub fd_max : ℕ
  pub active_clients : List TcpClient
  pub active_socket_client : UnorderedMap ℕ TcpClient
  pub active_nrs_sockets : UnorderedMap ℕ ℕ
  pub all_clients : UnorderedMap (List ℕ) TcpClient
  pub curr_id : ℕ

-- What is sent: the socket and the bytes, without the zeros that fill the buffer.
abbrev pub Sent : Type 0
Sent = List (ℕ × List ℕ)

abbrev pub max_len : ℕ
max_len = 51

abbrev pub buflen : ℕ
buflen = 1568

unfoldable pub is_active : (nickname : List ℕ) → List TcpClient → Bool
is_active nickname [] = false
is_active nickname (c ∷ cs) =
    let rest = is_active nickname cs in if str_eq c.nickname nickname then true else rest

-- Inserting a client whose nickname is there changes nothing.
unfoldable pub activate : TcpClient → List TcpClient → List TcpClient
unfolding is_active
activate c cs = if is_active c.nickname cs then cs else c ∷ cs

unfoldable pub deactivate : (nickname : List ℕ) → List TcpClient → List TcpClient
deactivate nickname [] = []
deactivate nickname (c ∷ cs) =
    let rest = deactivate nickname cs in if str_eq c.nickname nickname then rest else c ∷ rest

unfoldable pub add_new_client : (newsockfd : ℕ) → (nickname : List ℕ) → Server → Server
unfolding activate
add_new_client newsockfd nickname s =
    let client : TcpClient = record { number = s.curr_id; nickname = nickname } in
    record s {
      curr_id = s.curr_id + 1;
      active_clients = activate client s.active_clients;
      all_clients = insert nickname client s.all_clients;
      active_nrs_sockets = insert client.number newsockfd s.active_nrs_sockets;
      active_socket_client = insert newsockfd client s.active_socket_client;
    }

-- A client that has been connected before.
unfoldable pub reconnect : (newsockfd : ℕ) → TcpClient → Server → Server
unfolding activate
reconnect newsockfd client s = record s {
  active_clients = activate client s.active_clients;
  active_nrs_sockets = insert client.number newsockfd s.active_nrs_sockets;
  active_socket_client = insert newsockfd client s.active_socket_client;
}

-- After the nickname has been read.
unfoldable pub greet : (newsockfd : ℕ) → (nickname : List ℕ) → Server → Server
unfolding is_active reconnect add_new_client
greet newsockfd nickname s =
    if is_active nickname s.active_clients then s else elim (s.all_clients nickname) [
      | some client ↦ reconnect newsockfd client s
      | none ↦ add_new_client newsockfd nickname (record s {
        read_fds = λ j. if j == newsockfd then true else s.read_fds j;
        fd_max = if ltb s.fd_max newsockfd then newsockfd else s.fd_max;
      })
    ]

-- `none` stands for an error of `accept` or `recv`.
unfoldable pub handle_connection_request :
    (accepted : Option ℕ) → (received : Option (List ℕ)) → Server → Outcome Server
unfolding greet
handle_connection_request none received s = exited
handle_connection_request (some newsockfd) none s = exited
handle_connection_request (some newsockfd) (some bytes) s =
    c_string max_len bytes >>= λ nickname. ok (greet newsockfd nickname s)

-- One line for each client, appended to a buffer of `buflen` bytes.
unfoldable pub list_clients : (buffer : List ℕ) → List TcpClient → Outcome (List ℕ)
unfolding decimal
list_clients buffer [] = ok buffer
list_clients buffer (c ∷ cs) =
    let buffer' = buffer ++ (decimal c.number ++ (codes " - " ++ (c.nickname ++ codes "\n"))) in
    let rest = list_clients buffer' cs in if ltb (length buffer') buflen then rest else fault

-- The end of a connection. `at` throws if the socket is no client's.
unfoldable pub disconnect : (i : ℕ) → Server → Outcome Server
unfolding deactivate
disconnect i s = elim (s.active_socket_client i) [
  | none ↦ fault
  | some client ↦ ok (record s {
    read_fds = λ j. if j == i then false else s.read_fds j;
    active_nrs_sockets = erase client.number s.active_nrs_sockets;
    active_clients = deactivate client.nickname s.active_clients;
    active_socket_client = erase i s.active_socket_client;
  })
]

-- The `int` at the beginning of a `message`, on a little-endian machine.
abbrev pub nr_dest : List ℕ → ℕ
nr_dest bytes =
    byte_at bytes 0 + 256 * (byte_at bytes 1 + 256 * (byte_at bytes 2 + 256 * byte_at bytes 3))

-- The size of a `message`: 4 bytes, 51, and one that pads it.
abbrev pub message_size : ℕ
message_size = 56

-- -1, in two's complement.
abbrev pub minus_one : ℕ
minus_one = 0xffffffff

unfoldable pub relay : (send_fails : ℕ → Bool) → (bytes : List ℕ) → Server → Outcome (Server × Sent)
relay send_fails bytes s = elim (s.active_nrs_sockets (nr_dest bytes)) [
  | none ↦ ok (s, [])
  | some socket ↦
      if send_fails socket then exited else ok (s, (socket, take max_len (drop 4 bytes)) ∷ [])
]

unfoldable pub send_list :
    (order : List TcpClient → List TcpClient)
    → (send_fails : ℕ → Bool) → (i : ℕ) → Server
    → Outcome (Server × Sent)
unfolding list_clients
send_list order send_fails i s = list_clients [] (order s.active_clients) >>= λ text.
    if send_fails i then exited else ok (s, (i, text) ∷ [])

-- `recv` is given the size of another buffer: more bytes than a `message` has are written outside it.
unfoldable pub handle_tcp_message :
    (order : List TcpClient → List TcpClient)
    → (send_fails : ℕ → Bool) → (i : ℕ) → (received : Option (List ℕ)) → Server
    → Outcome (Server × Sent)
unfolding disconnect relay send_list
handle_tcp_message order send_fails i none s = exited
handle_tcp_message order send_fails i (some []) s = disconnect i s >>= λ s'. ok (s', [])
handle_tcp_message order send_fails i (some (b ∷ bs)) s =
    let bytes = b ∷ bs in
    if ltb message_size (length bytes)
    then fault
    else if nr_dest bytes == minus_one
    then send_list order send_fails i s
    else relay send_fails bytes s

unfoldable pub handle_stdin_message : (line : List ℕ) → Server → Outcome Server
unfolding str_eq
handle_stdin_message line s = if str_eq line (codes "exit") then exited else ok s

-- What the calls of one round of the loop return.
pub record Round : Type 0 where
  pub tmp_fds : ℕ → Bool
  pub line : List ℕ
  pub accepted : Option ℕ
  pub nickname : Option (List ℕ)
  pub received : ℕ → Option (List ℕ)
  pub send_fails : ℕ → Bool
  pub order : List TcpClient → List TcpClient

-- Before the loop, with standard input and the socket in the set.
unfoldable pub start : (sock_tcp : ℕ) → Server
start sock_tcp = record {
  read_fds = λ j. if j == 0 then true else j == sock_tcp;
  fd_max = sock_tcp;
  active_clients = [];
  active_socket_client = λ j. none;
  active_nrs_sockets = λ j. none;
  all_clients = λ j. none;
  curr_id = 1;
}

unfoldable pub serve : (sock_tcp : ℕ) → Round → (i : ℕ) → Server → Outcome (Server × Sent)
unfolding handle_stdin_message handle_connection_request handle_tcp_message
serve sock_tcp r i s =
    if i == 0
    then (handle_stdin_message r.line s >>= λ s'. ok (s', []))
    else if i == sock_tcp
    then (handle_connection_request r.accepted r.nickname s >>= λ s'. ok (s', []))
    else handle_tcp_message r.order r.send_fails i (r.received i) s

-- The descriptors from `i` on, `left` of them.
unfoldable pub scan : (sock_tcp : ℕ) → Round → (left i : ℕ) → Server → Outcome (Server × Sent)
unfolding serve
scan sock_tcp r zero i s = ok (s, [])
scan sock_tcp r (suc left) i s =
    let step = if r.tmp_fds i then serve sock_tcp r i s else ok (s, []) in
    step >>= λ (s', sent).
    scan sock_tcp r left (i + 1) s' >>= λ (s'', later). ok (s'', sent ++ later)

unfoldable pub run : (sock_tcp : ℕ) → List Round → Server → Outcome (Server × Sent)
unfolding scan
run sock_tcp [] s = ok (s, [])
run sock_tcp (r ∷ rs) s = scan sock_tcp r (s.fd_max + 1) 0 s >>= λ (s', sent).
    run sock_tcp rs s' >>= λ (s'', later). ok (s'', sent ++ later)
