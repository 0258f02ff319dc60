-- ===== src/Broker.antt =====
-- The server of tema2: a broker between UDP stations, which publish messages on topics, and TCP
-- clients, which subscribe to topics. Models tema2/common_stuff.h and tema2/server_helper.cpp; the
-- loop of tema2/server.cpp is Broker/Loop.antt. What `accept`, `recv`, `recvfrom` and `fgets` return is
-- a parameter. An uncaught C++ exception is a fault.
pub mod Loop
pub mod Subscriptions
pub mod Consistent
pub mod Safety
pub mod Known
pub mod Messages
pub mod Served
pub mod Running
pub mod Store
pub mod Delivery
pub mod Sockets
use protocoale_de_comunicati.Common.{
  ℕ, zero, suc, ◌+◌, ◌-◌, Bool, true, false, Option, none, some, List, [], ◌∷◌, ◌++◌, ltb, ◌==◌,
  if◌then◌else◌, Outcome, ok, exited, fault, ◌>>=◌, codes, take, drop, get_elem?, map,
}
use protocoale_de_comunicati.Common.Maps.{
  UnorderedMap, insert, assign, erase, str_eq, string_key, nat_key,
}

pub record TcpClient : Type 0 where
  pub id : List ℕ
  pub socket : ℕ

-- A topic of 50 bytes, the type, and a content of 1500 bytes; bytes that did not arrive are 0, and
-- are not written out at the end of either.
pub record UdpMessage : Type 0 where
  pub topic : List ℕ
  pub data_type : ℕ
  pub content : List ℕ

pub record Subscription : Type 0 where
  pub client : TcpClient
  pub sf : ℕ

pub record SubMessage : Type 0 where
  pub message : UdpMessage
  pub from_station : ℕ

-- What the server sends: the socket and the message.
abbrev pub Sent : Type 0
Sent = List (ℕ × SubMessage)

abbrev pub Subs : Type 0
Subs = UnorderedMap (List ℕ) (List Subscription)

abbrev pub Stored : Type 0
Stored = UnorderedMap (List ℕ) (List SubMessage)

pub record Server : Type 0 where
  pub read_fds : ℕ → Bool
  pub fd_max : ℕ
  pub active_clients : UnorderedMap ℕ TcpClient
  pub all_clients : UnorderedMap (List ℕ) TcpClient
  pub active_ids_sockets : UnorderedMap (List ℕ) ℕ
  pub topics_subs : Subs
  pub store_and_forward : Stored

-- The C string in an array of `room` bytes, cleared before the bytes came: a fault if it has no NUL.
unfoldable pub c_string : (room : ℕ) → List ℕ → Outcome (List ℕ)
c_string zero bytes = fault
c_string (suc room) [] = ok []
c_string (suc room) (c ∷ bytes) = elim c [
  | zero ↦ ok []
  | suc d ↦ c_string room bytes >>= λ s. ok (suc d ∷ s)
]

abbrev pub max_id_len : ℕ
max_id_len = 11

abbrev pub topic_len : ℕ
topic_len = 50

abbrev pub content_len : ℕ
content_len = 1500

abbrev pub sf_off : ℕ
sf_off = b'0'

abbrev pub sf_on : ℕ
sf_on = b'1'

-- The messages stored for a client, to a socket.
unfoldable pub forward : (socket : ℕ) → List SubMessage → Sent
forward socket [] = []
forward socket (m ∷ ms) = (socket, m) ∷ forward socket ms

-- A client that has been connected before. It is `all_clients` that says where the messages go.
unfoldable pub reconnect :
    (new_client_id : List ℕ) → (newsockfd : ℕ) → Server → Outcome (Server × Sent)
unfolding forward
reconnect new_client_id newsockfd s = elim (s.all_clients new_client_id) [
  | none ↦ fault
  | some client ↦
      let s' : Server = record s {
        active_clients = insert newsockfd client s.active_clients;
        active_ids_sockets = insert client.id newsockfd s.active_ids_sockets;
        all_clients = insert new_client_id client (erase new_client_id s.all_clients);
      } in
      elim (s.store_and_forward client.id) [
        | none ↦ ok (s', [])
        | some messages ↦ ok (
          record s' { store_and_forward = erase client.id s.store_and_forward },
          forward client.socket messages,
        )
      ]
]

unfoldable pub add_new_client : (newsockfd : ℕ) → (new_client_id : List ℕ) → Server → Server
add_new_client newsockfd new_client_id s =
    let client : TcpClient = record { id = new_client_id; socket = newsockfd } in
    record s {
      all_clients = insert new_client_id client s.all_clients;
      active_clients = insert newsockfd client s.active_clients;
      active_ids_sockets = insert new_client_id newsockfd s.active_ids_sockets;
    }

-- `FD_SET` and the new maximum.
unfoldable pub watch : (newsockfd : ℕ) → Server → Server
watch newsockfd s = record s {
  read_fds = λ j. if j == newsockfd then true else s.read_fds j;
  fd_max = if ltb s.fd_max newsockfd then newsockfd else s.fd_max;
}

-- After the ID has been read from the new socket.
unfoldable pub greet : (newsockfd : ℕ) → (new_client_id : List ℕ) → Server → Outcome (Server × Sent)
unfolding watch reconnect add_new_client
greet newsockfd new_client_id s = elim (s.active_ids_sockets new_client_id) [
  | some _ ↦ ok (s, [])
  | none ↦ elim (s.all_clients new_client_id) [
    | some _ ↦ reconnect new_client_id newsockfd (watch newsockfd s)
    | none ↦ ok (add_new_client newsockfd new_client_id (watch newsockfd s), [])
  ]
]

-- `none` stands for an error of `accept` or `recv`.
unfoldable pub handle_connection_request :
    (accepted : Option ℕ) → (received : Option (List ℕ)) → Server → Outcome (Server × Sent)
unfolding c_string greet
handle_connection_request none received s = exited
handle_connection_request (some newsockfd) none s = exited
handle_connection_request (some newsockfd) (some bytes) s =
    c_string max_id_len bytes >>= λ new_client_id. greet newsockfd new_client_id s

-- The server ends on `exit`, and keeps running on any other line.
unfoldable pub handle_stdin_message : (line : List ℕ) → Server → Outcome (Server × Sent)
unfolding str_eq
handle_stdin_message line s = if str_eq (take 4 line) (codes "exit") then exited else ok (s, [])

-- At the end of the list of the client, which is made if there is none.
unfoldable pub store : (id : List ℕ) → SubMessage → Stored → Stored
store id to_send stored = elim (stored id) [
  | none ↦ insert id (to_send ∷ []) stored
  | some messages ↦ assign id (messages ++ to_send ∷ []) stored
]

unfoldable pub send_to_subscribers :
    Subscription
    → SubMessage
    → (active_ids_sockets : UnorderedMap (List ℕ) ℕ) → Stored
    → Stored × Sent
unfolding store
send_to_subscribers sub to_send active_ids_sockets stored =
    elim (active_ids_sockets sub.client.id) [
      | some _ ↦ (stored, (sub.client.socket, to_send) ∷ [])
      | none ↦
          if sub.sf == sf_off
          then (stored, [])
          else if sub.sf == sf_on
          then (store sub.client.id to_send stored, [])
          else (stored, [])
    ]

-- The loop over the subscriptions of the topic.
unfoldable pub send_to_all :
    List Subscription
    → SubMessage
    → (active_ids_sockets : UnorderedMap (List ℕ) ℕ) → Stored
    → Stored × Sent
unfolding send_to_subscribers
send_to_all [] to_send active_ids_sockets stored = (stored, [])
send_to_all (sub ∷ subs) to_send active_ids_sockets stored =
    let (stored', sent) = send_to_subscribers sub to_send active_ids_sockets stored in
    let (stored'', later) = send_to_all subs to_send active_ids_sockets stored' in
    (stored'', sent ++ later)

-- A byte of an array that was cleared before the bytes came.
abbrev pub byte_at : List ℕ → ℕ → ℕ
byte_at bytes i = elim (get_elem? bytes i) [ none ↦ 0 | some c ↦ c ]

unfoldable pub udp_message : (buffer : List ℕ) → UdpMessage
udp_message buffer = record {
  topic = take topic_len buffer;
  data_type = byte_at buffer topic_len;
  content = take content_len (drop (topic_len + 1) buffer);
}

unfoldable pub publish : (topic : List ℕ) → SubMessage → Server → Server × Sent
unfolding send_to_all
publish topic to_send s = elim (s.topics_subs topic) [
  | none ↦ (record s { topics_subs = insert topic [] s.topics_subs }, [])
  | some subs ↦
      let (stored, sent) = send_to_all subs to_send s.active_ids_sockets s.store_and_forward in
      (record s { store_and_forward = stored }, sent)
]

-- `none` stands for an error of `recvfrom`, which takes 1551 bytes at most.
unfoldable pub handle_udp_message :
    (received : Option (ℕ × List ℕ)) → Server → Outcome (Server × Sent)
unfolding c_string publish udp_message
handle_udp_message none s = exited
handle_udp_message (some (from_station, buffer)) s =
    let message = udp_message buffer in
    c_string (topic_len + 1) message.topic >>= λ topic.
    ok (publish topic (record { message = message; from_station = from_station }) s)

-- The first subscription of the client gets the new `sf`; `none` if there is no such subscription.
unfoldable pub update_sf :
    (client_id : List ℕ) → (sf : ℕ) → List Subscription → Option (List Subscription)
update_sf client_id sf [] = none
update_sf client_id sf (sub ∷ subs) =
    let rest : Option (List Subscription) = elim (update_sf client_id sf subs) [
      | none ↦ none
      | some subs' ↦ some (sub ∷ subs')
    ] in
    if str_eq sub.client.id client_id then some (record sub { sf = sf } ∷ subs) else rest

unfoldable pub subscribe : TcpClient → (sf : ℕ) → List Subscription → List Subscription
unfolding update_sf
subscribe client sf subs = elim (update_sf client.id sf subs) [
  | some subs' ↦ subs'
  | none ↦ subs ++ (record { client = client; sf = sf }) ∷ []
]

unfoldable pub unsubscribe : (client_id : List ℕ) → List Subscription → List Subscription
unsubscribe client_id [] = []
unsubscribe client_id (sub ∷ subs) =
    let rest = sub ∷ unsubscribe client_id subs in
    if str_eq sub.client.id client_id then subs else rest

-- The end of a connection. `active_clients.at` throws if the socket is no client's.
unfoldable pub disconnect : (i : ℕ) → Server → Outcome (Server × Sent)
disconnect i s = elim (s.active_clients i) [
  | none ↦ fault
  | some client ↦ ok (
    record s {
      read_fds = λ j. if j == i then false else s.read_fds j;
      active_ids_sockets = erase client.id s.active_ids_sockets;
      active_clients = erase i s.active_clients;
    },
    [],
  )
]

-- `'0'` subscribes and `'1'` unsubscribes; other requests change nothing, and so does a request for
-- a topic on which nothing has been published.
unfoldable pub request :
    TcpClient → (topic : List ℕ) → (sf req_type : ℕ) → List Subscription → List Subscription
unfolding subscribe unsubscribe
request client topic sf req_type subs =
    if req_type == b'0'
    then subscribe client sf subs
    else if req_type == b'1'
    then unsubscribe client.id subs
    else subs

-- A request of 53 bytes: the topic of 51, `sf`, and `req_type`.
unfoldable pub handle_request : (i : ℕ) → (req : List ℕ) → Server → Outcome (Server × Sent)
unfolding c_string request
handle_request i req s = c_string (topic_len + 1) req >>= λ topic. elim (s.topics_subs topic) [
  | none ↦ ok (s, [])
  | some subs ↦ elim (s.active_clients i) [
    | none ↦ fault
    | some client ↦ ok (
      record s {
        topics_subs =
            assign topic
              (request client topic (byte_at req (topic_len + 1)) (byte_at req (topic_len + 2))
                subs)
              s.topics_subs;
      },
      [],
    )
  ]
]

unfoldable pub handle_tcp_message :
    (i : ℕ) → (received : Option (List ℕ)) → Server → Outcome (Server × Sent)
unfolding disconnect handle_request
handle_tcp_message i none s = exited
handle_tcp_message i (some []) s = disconnect i s
handle_tcp_message i (some (c ∷ cs)) s = handle_request i (c ∷ cs) s
