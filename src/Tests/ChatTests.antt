-- ===== src/Tests/ChatTests.antt =====
-- The theorem on the select server, applied to a message from one client to another.
use protocoale_de_comunicati.Common.{
  ◌≡◌, refl, arith, true, false, none, some, [], ◌∷◌, ◌==◌, if◌then◌else◌, ok, codes,
}
use protocoale_de_comunicati.Chat.{Server, Round, round, start, dest}
use protocoale_de_comunicati.Chat.Rounds.{round_relays}

-- The clients 4 and 5 have connected to the server on descriptor 3.
abbrev two_clients : Server
two_clients = record (start 3) {
  read_fds = λ j. if j == 3 then true else if j == 4 then true else j == 5;
  fdmax = 5;
}

-- Client 5 sends `4 hi`.
abbrev greeting : Round
greeting = record {
  tmp_fds = λ j. j == 5;
  accepted = none;
  received = λ j. if j == 5 then some (codes "4 hi") else none;
  send_fails = λ j. false;
}

round_relays_example : round greeting two_clients ≡ ok (two_clients, (4, codes "4 hi") ∷ [])
unfolding start dest
round_relays_example =
    round_relays greeting 5 4 (codes " hi") two_clients (omega arith) refl (λ j. refl) (omega arith)
      (omega arith) refl

-- A third client connects.
round_accepts :
    round (record greeting { tmp_fds = λ j. j == 3; accepted = some 6 }) two_clients
    ≡ ok (
      record two_clients {
        read_fds = λ j. if j == 6 then true else two_clients.read_fds j;
        fdmax = 6;
      },
      [],
    )
unfolding round start
round_accepts = refl
