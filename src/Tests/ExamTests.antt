-- ===== src/Tests/ExamTests.antt =====
-- The server and the client of test_practic on concrete rounds, and the theorems at them.
use protocoale_de_comunicati.Common.{
  ℕ, ◌≡◌, refl, arith, false, none, some, List, [], ◌∷◌, ◌==◌, if◌then◌else◌, ok, ◌>>=◌, codes,
  Returns,
}
use protocoale_de_comunicati.Common.Maps.{string_key, nat_key}
use protocoale_de_comunicati.Broker.{c_string}
use protocoale_de_comunicati.Http.Requests.{decimal_from}
use protocoale_de_comunicati.Subscriber.{padded}
use protocoale_de_comunicati.Exam.{
  Server, Round, TcpClient, start, run, greet, disconnect, handle_tcp_message, max_len,
}
use protocoale_de_comunicati.Exam.Client.{handle_stdin_message, handle_server_message}
use protocoale_de_comunicati.Exam.Relay.{
  msg_line, msg_line-handle_server_message, msg_line-loses_text,
}
use protocoale_de_comunicati.Exam.Deaf.{IsBack, disconnect-IsBack}

-- A round in which nothing is ready.
abbrev quiet : Round
quiet = record {
  tmp_fds = λ j. false;
  line = [];
  accepted = none;
  nickname = none;
  received = λ j. none;
  send_fails = λ j. false;
  order = λ cs. cs;
}

abbrev connects : List ℕ → ℕ → Round
connects nickname fd = record quiet {
  tmp_fds = λ j. j == 3;
  accepted = some fd;
  nickname = some nickname;
}

-- The client on descriptor 4 asks for the list.
abbrev asks : Round
asks = record quiet {
  tmp_fds = λ j. j == 4;
  received = λ j. some (0xff ∷ 0xff ∷ 0xff ∷ 0xff ∷ padded 52 (codes "LIST"));
}

abbrev two_clients : List Round
two_clients = connects (codes "anna") 4 ∷ connects (codes "dan") 5 ∷ []

lists_clients :
    (run 3 (connects (codes "anna") 4 ∷ connects (codes "dan") 5 ∷ asks ∷ []) (start 3)
      >>= λ (s, sent). ok sent)
    ≡ ok ((4, codes "2 - dan\n1 - anna\n") ∷ [])
unfolding run start padded c_string decimal_from
lists_clients = refl

abbrev server : Server
server = elim (run 3 two_clients (start 3)) [ ok (s, sent) ↦ s | _ ↦ start 3 ]

msg_line-handle_server_message_example :
    ((handle_stdin_message false (msg_line (codes "2") (codes "hello")) >>= λ bytes.
    handle_tcp_message (λ cs. cs) (λ j. false) 4 (some bytes) server)
      ≡ ok (server, (5, padded max_len (codes "hello")) ∷ []))
    × (handle_server_message (some (padded max_len (codes "hello"))) ≡ ok (codes "hello\n"))
unfolding run start c_string
msg_line-handle_server_message_example =
    msg_line-handle_server_message (λ cs. cs) (λ j. false) 4 b'2' 5 b'h' (codes "ello") server
      (omega arith) (omega arith) (omega arith) (omega arith) refl refl

-- A server that has given out the number 12.
abbrev twelfth : Server
twelfth = record server { active_nrs_sockets = λ n. if n == 12 then some 15 else none }

msg_line-loses_text_example :
    ((handle_stdin_message false (msg_line (codes "12") (codes "hello")) >>= λ bytes.
    handle_tcp_message (λ cs. cs) (λ j. false) 4 (some bytes) twelfth)
      ≡ ok (twelfth, (15, padded max_len []) ∷ []))
    × (handle_server_message (some (padded max_len [])) ≡ ok (codes "\n"))
msg_line-loses_text_example =
    msg_line-loses_text (λ cs. cs) (λ j. false) 4 b'1' b'2' 15 (codes "hello") twelfth (omega arith)
      (omega arith) (omega arith) (omega arith) refl refl

abbrev dan : TcpClient
dan = record { number = 2; nickname = codes "dan" }

disconnect-IsBack_example :
    Returns (IsBack 6 5 dan server) (disconnect 5 server >>= λ s'. ok (greet 6 (codes "dan") s'))
unfolding run start c_string
disconnect-IsBack_example = disconnect-IsBack server 5 6 dan refl refl refl
