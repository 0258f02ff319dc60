-- ===== src/Tests/BrokerTests.antt =====
-- The broker of tema2 on concrete rounds, and the theorems at them.
use protocoale_de_comunicati.Common.{
  ℕ, zero, suc, ◌≡◌, refl, arith, false, Option, none, some, List, [], ◌∷◌, ◌++◌, ◌==◌, ok, ◌>>=◌,
  codes, Safe, Returns, Whenever, subst, take, length, ◌<◌,
}
use protocoale_de_comunicati.Common.Maps.{string_key, nat_key, str_eq, assign}
use protocoale_de_comunicati.Broker.{
  TcpClient, Subscription, SubMessage, Server, udp_message, request, max_id_len, c_string,
  handle_connection_request, handle_tcp_message, greet, subscribe, unsubscribe,
}
use protocoale_de_comunicati.Subscriber.{handle_stdin_message, send_id, is_delim}
use protocoale_de_comunicati.Subscriber.Typed.{
  subscribe_line, unsubscribe_line, typed-handle_tcp_message,
}
use protocoale_de_comunicati.Subscriber.Id.{send_id-handle_connection_request}
use protocoale_de_comunicati.Broker.Loop.{Sockets, Round, start, round, run}
use protocoale_de_comunicati.Broker.Subscriptions.{sf_of, request-sf_of}
use protocoale_de_comunicati.Broker.Consistent.{IsConsistent}
use protocoale_de_comunicati.Broker.Running.{ArePlausible, run-start-IsConsistent}
use protocoale_de_comunicati.Broker.Delivery.{receive_all-Delivered, Delivered, receive_all}
use protocoale_de_comunicati.Broker.Sockets.{run-Knows}

Option-value : {A : Type 0} {a b : A} → ◌≡◌ {A = Option A} (some a) (some b) → a ≡ b
Option-value e = cc

abbrev socks : Sockets
socks = record { sock_tcp = 3; sock_udp = 4 }

abbrev zeros : ℕ → List ℕ
zeros zero = []
zeros (suc n) = 0 ∷ zeros n

-- A round in which nothing is ready.
abbrev quiet : Round
quiet = record {
  tmp_fds = λ j. false;
  line = [];
  accepted = none;
  id = none;
  datagram = none;
  received = λ j. none;
}

-- A client connects on a descriptor.
abbrev connects : ℕ → Round
connects fd = record quiet { tmp_fds = λ j. j == 3; accepted = some fd; id = some (codes "anna") }

-- A station publishes `on` with a content of one byte.
abbrev publishes : ℕ → Round
publishes c = record quiet {
  tmp_fds = λ j. j == 4;
  datagram = some (7, codes "on" ++ (zeros 48 ++ (3 ∷ c ∷ [])));
}

-- The client on descriptor 5 subscribes to `on`, to be sent later what it misses.
abbrev subscribes : Round
subscribes = record quiet {
  tmp_fds = λ j. j == 5;
  received = λ j. some (codes "on" ++ (zeros 49 ++ codes "10"));
}

abbrev leaves : Round
leaves = record quiet { tmp_fds = λ j. j == 5; received = λ j. some [] }

abbrev note : ℕ → SubMessage
note c = record {
  message = udp_message (codes "on" ++ (zeros 48 ++ (3 ∷ c ∷ [])));
  from_station = 7;
}

-- The client misses two messages. When it connects again, on descriptor 6, they go to descriptor 5.
forwarded_to_first_socket :
    (run socks
        (connects 5
          ∷ publishes 0
          ∷ subscribes
          ∷ publishes 1
          ∷ leaves
          ∷ publishes 2
          ∷ publishes 3
          ∷ connects 6
          ∷ [])
        (start socks)
      >>= λ (s, sent). ok sent)
    ≡ ok ((5, note 1) ∷ (5, note 2) ∷ (5, note 3) ∷ [])
unfolding run start
forwarded_to_first_socket = refl

abbrev until_away : List Round
until_away = connects 5 ∷ publishes 0 ∷ subscribes ∷ leaves ∷ []

abbrev away : Server
away = elim (run socks until_away (start socks)) [ ok (s, sent) ↦ s | _ ↦ start socks ]

until_away_plausible : ArePlausible socks until_away (start socks)
unfolding run start round
until_away_plausible = (
  record {
    selects = λ j e. ground (arith, e);
    fresh = λ fd e. ground (arith, e);
    id_ends = λ bytes e. subst (λ b. length b < max_id_len) (Option-value e) (omega arith);
    topic_ends = λ i req e. absurd (ground (arith, e));
  },
  (
    record {
      selects = λ j e. ground (arith, e);
      fresh = λ fd e. absurd (ground (arith, e));
      id_ends = λ bytes e. absurd (ground (arith, e));
      topic_ends = λ i req e. absurd (ground (arith, e));
    },
    (
      record {
        selects = λ j e. ground (arith, e);
        fresh = λ fd e. absurd (ground (arith, e));
        id_ends = λ bytes e. absurd (ground (arith, e));
        topic_ends =
            λ i req e. subst (λ b. Safe (λ topic. Unit) (c_string 51 b)) (Option-value e) tt;
      },
      (
        record {
          selects = λ j e. ground (arith, e);
          fresh = λ fd e. absurd (ground (arith, e));
          id_ends = λ bytes e. absurd (ground (arith, e));
          topic_ends =
              λ i req e. subst (λ b. Safe (λ topic. Unit) (c_string 51 b)) (Option-value e) tt;
        },
        tt,
      ),
    ),
  ),
)

run-start-IsConsistent_example :
    Safe (λ (s', sent). IsConsistent 3 4 s') (run socks until_away (start socks))
run-start-IsConsistent_example = run-start-IsConsistent socks until_away until_away_plausible

-- The server after those rounds.
away-IsConsistent : IsConsistent 3 4 away
unfolding run start
away-IsConsistent = run-start-IsConsistent socks until_away until_away_plausible

receive_all-Delivered_example :
    Returns
      (λ (s', sent).
        Returns
          (Delivered
            (codes "anna")
            6
            (record { id = codes "anna"; socket = 5 })
            (note 2 ∷ note 3 ∷ []))
          (handle_connection_request (some 6) (some (codes "anna")) s'))
      (receive_all
        ((7, codes "on" ++ (zeros 48 ++ (3 ∷ 2 ∷ [])))
          ∷ (7, codes "on" ++ (zeros 48 ++ (3 ∷ 3 ∷ [])))
          ∷ [])
        away)
unfolding run start sf_of
receive_all-Delivered_example =
    receive_all-Delivered 3 4 away (codes "anna") (codes "anna") 6
      (record { id = codes "anna"; socket = 5 })
      ((7, codes "on" ++ (zeros 48 ++ (3 ∷ 2 ∷ [])))
        ∷ (7, codes "on" ++ (zeros 48 ++ (3 ∷ 3 ∷ [])))
        ∷ [])
      away-IsConsistent refl refl refl

abbrev client_1 : TcpClient
client_1 = record { id = codes "anna"; socket = 5 }

-- A client is connected, and the topic has no subscription yet.
abbrev topic_open : Server
topic_open = elim (run socks (connects 5 ∷ publishes 0 ∷ []) (start socks)) [
  | ok (s, sent) ↦ s
  | _ ↦ start socks
]

abbrev two_subs : List Subscription
two_subs =
    record { client = client_1; sf = b'1' }
    ∷ record { client = record { id = codes "dan"; socket = 6 }; sf = b'0' }
    ∷ []

request-sf_of_example :
    sf_of (codes "anna") (request client_1 (codes "on") b'0' b'0' two_subs) ≡ some b'0'
unfolding sf_of str_eq
request-sf_of_example =
    request-sf_of client_1 (codes "on") b'0' b'0' two_subs (codes "anna") (refl, (refl, tt))

run-Knows_example :
    Whenever
      (λ (s', sent). s'.all_clients (codes "anna") ≡ some client_1)
      (run socks (connects 6 ∷ []) away)
unfolding run start
run-Knows_example = run-Knows (codes "anna") client_1 socks (connects 6 ∷ []) away refl

typed-handle_tcp_message_example :
    ((handle_stdin_message false (subscribe_line (codes "on") b'1') >>= λ bytes.
    handle_tcp_message 5 (some bytes) topic_open)
      ≡ ok (
        record topic_open {
          topics_subs = assign (codes "on") (subscribe client_1 b'1' []) topic_open.topics_subs;
        },
        [],
      ))
    × ((handle_stdin_message false (unsubscribe_line (codes "on")) >>= λ bytes.
          handle_tcp_message 5 (some bytes) topic_open)
        ≡ ok (
          record topic_open {
            topics_subs =
                assign (codes "on") (unsubscribe (codes "anna") []) topic_open.topics_subs;
          },
          [],
        ))
unfolding run start is_delim
typed-handle_tcp_message_example =
    typed-handle_tcp_message topic_open 5 client_1 [] b'o' (codes "n") b'1'
      (omega arith, refl, (omega arith, refl, tt)) (omega arith, refl, tt) (omega arith) refl refl

send_id-handle_connection_request_example :
    (send_id false (codes "anna") >>= λ bytes.
    handle_connection_request (some 6) (some (take 11 bytes)) away)
    ≡ greet 6 (codes "anna") away
send_id-handle_connection_request_example =
    send_id-handle_connection_request 6 (codes "anna") away (omega arith) (omega arith)
