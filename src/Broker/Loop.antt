-- ===== src/Broker/Loop.antt =====
-- The loop of main of tema2/server.cpp. What the calls of a round return is a parameter.
use protocoale_de_comunicati.Common.{
  ℕ, zero, suc, ◌+◌, Bool, true, Option, none, List, [], ◌∷◌, ◌++◌, ltb, ◌==◌, if◌then◌else◌,
  Outcome, ok, ◌>>=◌,
}
use protocoale_de_comunicati.Broker.{
  Server, Sent, handle_stdin_message, handle_connection_request, handle_udp_message,
  handle_tcp_message,
}

-- The two sockets that the server opens at the beginning.
pub record Sockets : Type 0 where
  pub sock_tcp : ℕ
  pub sock_udp : ℕ

-- What the calls of one round return: the set that `select` leaves, the line of `fgets`, the
-- descriptor of `accept` and the bytes that come on it, the datagram, and what `recv` brings on each
-- client's descriptor.
pub record Round : Type 0 where
  pub tmp_fds : ℕ → Bool
  pub line : List ℕ
  pub accepted : Option ℕ
  pub id : Option (List ℕ)
  pub datagram : Option (ℕ × List ℕ)
  pub received : ℕ → Option (List ℕ)

-- Before the loop. The set has been filled with standard input and the two sockets.
unfoldable pub start : Sockets → Server
start socks = record {
  read_fds =
      λ j. if j == 0 then true else if j == socks.sock_tcp then true else j == socks.sock_udp;
  fd_max = if ltb socks.sock_tcp socks.sock_udp then socks.sock_udp else socks.sock_tcp;
  active_clients = λ j. none;
  all_clients = λ j. none;
  active_ids_sockets = λ j. none;
  topics_subs = λ j. none;
  store_and_forward = λ j. none;
}

-- The body of the loop for a descriptor that is ready.
unfoldable pub serve : Sockets → Round → (i : ℕ) → Server → Outcome (Server × Sent)
unfolding handle_stdin_message handle_connection_request handle_udp_message handle_tcp_message
serve socks r i s =
    if i == 0
    then handle_stdin_message r.line s
    else if i == socks.sock_tcp
    then handle_connection_request r.accepted r.id s
    else if i == socks.sock_udp
    then handle_udp_message r.datagram s
    else handle_tcp_message i (r.received i) s

-- The descriptors from `i` on, `left` of them. One above the `fd_max` of the round's beginning is not
-- in the set that `select` leaves.
unfoldable pub scan : Sockets → Round → (left i : ℕ) → Server → Outcome (Server × Sent)
unfolding serve
scan socks r zero i s = ok (s, [])
scan socks r (suc left) i s =
    let step = if r.tmp_fds i then serve socks r i s else ok (s, []) in
    step >>= λ (s', sent). scan socks r left (i + 1) s' >>= λ (s'', later). ok (s'', sent ++ later)

unfoldable pub round : Sockets → Round → Server → Outcome (Server × Sent)
unfolding scan
round socks r s = scan socks r (s.fd_max + 1) 0 s

unfoldable pub run : Sockets → List Round → Server → Outcome (Server × Sent)
unfolding round
run socks [] s = ok (s, [])
run socks (r ∷ rs) s =
    round socks r s >>= λ (s', sent). run socks rs s' >>= λ (s'', later). ok (s'', sent ++ later)
