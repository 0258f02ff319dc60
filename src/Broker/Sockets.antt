-- ===== src/Broker/Sockets.antt =====
-- The socket that the server of tema2 keeps for a client.
use protocoale_de_comunicati.Common.{
  ℕ, zero, suc, ◌+◌, ◌≡◌, Bool-cases, Option-cases, inl, inr, arith, Option, none, some, List, [],
  ◌∷◌, ◌==◌, if◌then◌else◌, ok, Whenever, Whenever-bind, Whenever-all, take, codes,
}
use protocoale_de_comunicati.Common.Maps.{insert, erase, str_eq, str_eq_iff, string_key, nat_key}
use protocoale_de_comunicati.Broker.{
  TcpClient, SubMessage, Server, Sent, watch, reconnect, add_new_client, greet, disconnect, publish,
  handle_stdin_message, handle_connection_request, handle_udp_message, handle_tcp_message,
  handle_request, c_string, max_id_len, topic_len, udp_message,
}
use protocoale_de_comunicati.Broker.Loop.{Sockets, Round, serve, scan, round, run}

module _ (id : List ℕ) (c : TcpClient) where
  abbrev Knows : Server × Sent → Type 0
  Knows (s, sent) = s.all_clients id ≡ some c

  module _ (s : Server) (known : s.all_clients id ≡ some c) where
    reconnect-Knows : (j : List ℕ) (fd : ℕ) → Whenever Knows (reconnect j fd s)
    unfolding reconnect
    reconnect-Knows j fd = elim (Option-cases (s.all_clients j)) [
      | inl e ↦ rw (e, Whenever) tt
      | inr (d, e) ↦
          let same : insert j d (erase j s.all_clients) id ≡ some c =
            ground (arith, e, known, str_eq_iff id j, str_eq_iff j j) in
          elim (Option-cases (s.store_and_forward d.id)) [
            | inl f ↦ rw (e, f, Whenever) same
            | inr (ms, f) ↦ rw (e, f, Whenever) same
          ]
    ]

    publish-Knows : (topic : List ℕ) (m : SubMessage) → Knows (publish topic m s)
    unfolding publish
    publish-Knows topic m = ground (arith, known)

    handle_udp_message-Knows :
        (received : Option (ℕ × List ℕ)) → Whenever Knows (handle_udp_message received s)
    unfolding handle_udp_message
    handle_udp_message-Knows none = tt
    handle_udp_message-Knows (some (from, buffer)) =
        Whenever-bind (λ topic. Unit) Knows (c_string (topic_len + 1) (udp_message buffer).topic) _
          (Whenever-all (λ topic. Unit) (c_string (topic_len + 1) (udp_message buffer).topic)
            (λ _. tt))
          (λ topic _. publish-Knows topic _)

    handle_request-Knows : (i : ℕ) (req : List ℕ) → Whenever Knows (handle_request i req s)
    unfolding handle_request
    handle_request-Knows i req =
        Whenever-bind (λ topic. Unit) Knows (c_string (topic_len + 1) req) _
          (Whenever-all (λ topic. Unit) (c_string (topic_len + 1) req) (λ _. tt))
          λ topic _. elim (Option-cases (s.topics_subs topic)) [
            | inl e ↦ rw (e, Whenever) known
            | inr (subs, e) ↦ elim (Option-cases (s.active_clients i)) [
              | inl f ↦ rw (e, f, Whenever) tt
              | inr (client, f) ↦ rw (e, f, Whenever) known
            ]
          ]

    handle_tcp_message-Knows :
        (i : ℕ) (received : Option (List ℕ)) → Whenever Knows (handle_tcp_message i received s)
    unfolding handle_tcp_message disconnect
    handle_tcp_message-Knows i none = tt
    handle_tcp_message-Knows i (some []) = elim (Option-cases (s.active_clients i)) [
      | inl e ↦ rw (e, Whenever) tt
      | inr (client, e) ↦ rw (e, Whenever) known
    ]
    handle_tcp_message-Knows i (some (b ∷ bs)) = handle_request-Knows i (b ∷ bs)

  module _ (s : Server) (known : s.all_clients id ≡ some c) where
    greet-Knows : (fd : ℕ) (j : List ℕ) → Whenever Knows (greet fd j s)
    unfolding greet add_new_client watch
    greet-Knows fd j = elim (Option-cases (s.active_ids_sockets j)) [
      | inr (_, e) ↦ rw (e, Whenever) known
      | inl e ↦ elim (Option-cases (s.all_clients j)) [
        | inl f ↦ rw (e, f, Whenever) (ground (arith, f, known, str_eq_iff id j))
        | inr (d, f) ↦ rw (e, f, Whenever) (reconnect-Knows (watch fd s) known j fd)
      ]
    ]

    handle_connection_request-Knows :
        (accepted : Option ℕ) (received : Option (List ℕ))
        → Whenever Knows (handle_connection_request accepted received s)
    unfolding handle_connection_request
    handle_connection_request-Knows none received = tt
    handle_connection_request-Knows (some fd) none = tt
    handle_connection_request-Knows (some fd) (some bytes) =
        Whenever-bind (λ j. Unit) Knows (c_string max_id_len bytes) (λ j. greet fd j s)
          (Whenever-all (λ j. Unit) (c_string max_id_len bytes) (λ _. tt)) (λ j _. greet-Knows fd j)

    serve-Knows : (socks : Sockets) (r : Round) (i : ℕ) → Whenever Knows (serve socks r i s)
    unfolding serve handle_stdin_message
    serve-Knows socks r i = elim (Bool-cases (i == 0)) [
      | inl input ↦ rw input (elim (Bool-cases (str_eq (take 4 r.line) (codes "exit"))) [
        | inl quit ↦ rw (quit, Whenever) tt
        | inr other ↦ rw (other, Whenever) known
      ])
      | inr not_input ↦ rw not_input (elim (Bool-cases (i == socks.sock_tcp)) [
        | inl tcp ↦ rw tcp (handle_connection_request-Knows r.accepted r.id)
        | inr not_tcp ↦ rw not_tcp (elim (Bool-cases (i == socks.sock_udp)) [
          | inl udp ↦ rw udp (handle_udp_message-Knows s known r.datagram)
          | inr not_udp ↦ rw not_udp (handle_tcp_message-Knows s known i (r.received i))
        ])
      ])
    ]

  scan-Knows :
      (socks : Sockets) (r : Round) (left i : ℕ) (s : Server)
      → s.all_clients id ≡ some c
      → Whenever Knows (scan socks r left i s)
  unfolding scan
  scan-Knows socks r zero i s known = known
  scan-Knows socks r (suc left) i s known =
      Whenever-bind Knows Knows (if r.tmp_fds i then serve socks r i s else ok (s, [])) _
        (elim (Bool-cases (r.tmp_fds i)) [
          | inl ready ↦ rw ready (serve-Knows s known socks r i)
          | inr quiet ↦ rw (quiet, Whenever) known
        ])
        λ (s', sent) known'.
          Whenever-bind Knows Knows (scan socks r left (i + 1) s') _
            (scan-Knows socks r left (i + 1) s' known') (λ (s'', later) known''. known'')

  -- The server never changes the socket of a client that it knows, on whatever descriptor the client
  -- connects again: after any rounds, `all_clients` has for an ID what it had.
  pub run-Knows :
      (socks : Sockets) (rs : List Round) (s : Server)
      → s.all_clients id ≡ some c
      → Whenever (λ (s', sent). s'.all_clients id ≡ some c) (run socks rs s)
  unfolding run round
  run-Knows socks [] s known = known
  run-Knows socks (r ∷ rs) s known =
      Whenever-bind Knows Knows (scan socks r (s.fd_max + 1) 0 s) _
        (scan-Knows socks r (s.fd_max + 1) 0 s known)
        λ (s', sent) known'.
          Whenever-bind Knows Knows (run socks rs s') _ (run-Knows socks rs s' known')
            (λ (s'', later) known''. known'')
