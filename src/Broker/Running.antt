-- ===== src/Broker/Running.antt =====
-- The loop of the server of tema2 keeps its maps consistent, and ends in no exception.
use protocoale_de_comunicati.Common.{
  ℕ, zero, suc, ◌+◌, ◌≤◌, ◌<◌, ◌≡◌, refl, sym, subst, true, false, Bool-cases, inl, inr, arith,
  some, List, [], ◌∷◌, ◌==◌, if◌then◌else◌, Outcome, ok, Safe, Safe-bind, Safe-and, Whenever,
  length, take, codes,
}
use protocoale_de_comunicati.Common.Maps.{str_eq}
use protocoale_de_comunicati.Broker.{
  Server, Sent, handle_stdin_message, handle_connection_request, handle_udp_message,
  handle_tcp_message, c_string, max_id_len, topic_len,
}
use protocoale_de_comunicati.Broker.Loop.{Sockets, Round, start, serve, scan, round, run}
use protocoale_de_comunicati.Broker.Consistent.{IsConsistent}
use protocoale_de_comunicati.Broker.Safety.{handle_connection_request-IsConsistent}
use protocoale_de_comunicati.Broker.Messages.{
  handle_udp_message-IsConsistent, handle_tcp_message-IsConsistent, c_string_short,
}
use protocoale_de_comunicati.Broker.Served.{
  IsServed, same_set, handle_connection_request-IsServed, handle_udp_message-IsServed,
  handle_tcp_message-IsServed,
}

-- What the calls of a round may return: `select` leaves descriptors of the set, `accept` returns a
-- descriptor that is not in use, an ID has fewer bytes than its array, and a request's topic ends.
pub record IsPlausible (s : Server) (r : Round) : Type 0 where
  pub selects : (j : ℕ) → r.tmp_fds j ≡ true → s.read_fds j ≡ true
  pub fresh : (fd : ℕ) → r.accepted ≡ some fd → s.read_fds fd ≡ false
  pub id_ends : (bytes : List ℕ) → r.id ≡ some bytes → length bytes < max_id_len
  pub topic_ends :
      (i : ℕ) (req : List ℕ)
      → r.received i ≡ some req
      → Safe (λ topic. Unit) (c_string (topic_len + 1) req)

module _ (socks : Sockets) (r : Round)
    (id_ends : (bytes : List ℕ) → r.id ≡ some bytes → length bytes < max_id_len)
    (topic_ends : (i : ℕ) (req : List ℕ)
      → r.received i ≡ some req
      → Safe (λ topic. Unit) (c_string (topic_len + 1) req)) where
  abbrev Serves : (i : ℕ) → Server → Server × Sent → Type 0
  Serves i s (s', sent) =
      IsConsistent socks.sock_tcp socks.sock_udp s' × IsServed socks.sock_tcp i s s'

  serve-Serves :
      (i : ℕ) (s : Server)
      → IsConsistent socks.sock_tcp socks.sock_udp s
      → s.read_fds i ≡ true
      → (i ≡ socks.sock_tcp → (fd : ℕ) → r.accepted ≡ some fd → s.read_fds fd ≡ false)
      → Safe (Serves i s) (serve socks r i s)
  unfolding serve handle_stdin_message
  serve-Serves i s v w fresh = elim (Bool-cases (i == 0)) [
    | inl input ↦ rw input (elim (Bool-cases (str_eq (take 4 r.line) (codes "exit"))) [
      | inl quit ↦ rw (quit, Safe) tt
      | inr other ↦ rw (other, Safe) (v, same_set socks.sock_tcp i s s refl)
    ])
    | inr not_input ↦ rw not_input (elim (Bool-cases (i == socks.sock_tcp)) [
      | inl tcp ↦
          let i_is : socks.sock_tcp ≡ i = ground (arith, tcp) in
          rw tcp (
            both (handle_connection_request r.accepted r.id s)
              (handle_connection_request-IsConsistent socks.sock_tcp socks.sock_udp s v r.accepted
                r.id (fresh (sym i_is))
                (λ bytes e. c_string_short max_id_len bytes (id_ends bytes e)))
              (subst
                (λ k.
                  Whenever (λ (s', sent). IsServed socks.sock_tcp k s s')
                    (handle_connection_request r.accepted r.id s))
                i_is (handle_connection_request-IsServed socks.sock_tcp s r.accepted r.id)))
      | inr not_tcp ↦ rw not_tcp (elim (Bool-cases (i == socks.sock_udp)) [
        | inl udp ↦ rw udp (
            both (handle_udp_message r.datagram s)
              (handle_udp_message-IsConsistent socks.sock_tcp socks.sock_udp s v r.datagram)
              (handle_udp_message-IsServed socks.sock_tcp s i r.datagram))
        | inr not_udp ↦ rw not_udp (
            both (handle_tcp_message i (r.received i) s)
              (handle_tcp_message-IsConsistent socks.sock_tcp socks.sock_udp s v i (r.received i) w
                (ground (arith, not_input)) (ground (arith, not_tcp)) (ground (arith, not_udp))
                (topic_ends i))
              (handle_tcp_message-IsServed socks.sock_tcp s i (r.received i)))
      ])
    ])
  ]
    where
      both :
          (o : Outcome (Server × Sent))
          → Safe (λ (s', sent). IsConsistent socks.sock_tcp socks.sock_udp s') o
          → Whenever (λ (s', sent). IsServed socks.sock_tcp i s s') o
          → Safe (Serves i s) o
      both o p q =
          Safe-and (λ (s', sent). IsConsistent socks.sock_tcp socks.sock_udp s')
            (λ (s', sent). IsServed socks.sock_tcp i s s') o p q

  scan-IsConsistent :
      (left i : ℕ) (s : Server)
      → IsConsistent socks.sock_tcp socks.sock_udp s
      → ((j : ℕ) → i ≤ j → r.tmp_fds j ≡ true → s.read_fds j ≡ true)
      → (i ≤ socks.sock_tcp → (fd : ℕ) → r.accepted ≡ some fd → s.read_fds fd ≡ false)
      → Safe (λ (s', sent). IsConsistent socks.sock_tcp socks.sock_udp s') (scan socks r left i s)
  unfolding scan
  scan-IsConsistent zero i s v selects fresh = v
  scan-IsConsistent (suc left) i s v selects fresh =
      Safe-bind (Serves i s) (λ (s', sent). IsConsistent socks.sock_tcp socks.sock_udp s')
        (if r.tmp_fds i then serve socks r i s else ok (s, [])) _
        (elim (Bool-cases (r.tmp_fds i)) [
          | inl ready ↦
              rw ready
                (serve-Serves i s v (selects i (omega arith) ready) (λ e. fresh (omega arith)))
          | inr quiet ↦ rw (quiet, Safe) (v, same_set socks.sock_tcp i s s refl)
        ])
        λ (s', sent) (v', served).
          Safe-bind (λ (s'', later). IsConsistent socks.sock_tcp socks.sock_udp s'') _
            (scan socks r left (i + 1) s') _
            (scan-IsConsistent left (i + 1) s' v'
              (λ j le e. served.stays j (omega arith) (selects j (omega arith) e))
              (λ le fd e. served.shrinks (omega arith) fd (fresh (omega arith) fd e)))
            (λ (s'', later) v''. v'')

-- The rounds are plausible, each for the server that the rounds before have left.
abbrev pub ArePlausible : Sockets → List Round → Server → Type 0
ArePlausible socks [] s = Unit
ArePlausible socks (r ∷ rs) s =
    IsPlausible s r × Whenever (λ (s', sent). ArePlausible socks rs s') (round socks r s)

run-IsConsistent :
    (socks : Sockets) (rs : List Round) (s : Server)
    → IsConsistent socks.sock_tcp socks.sock_udp s
    → ArePlausible socks rs s
    → Safe (λ (s', sent). IsConsistent socks.sock_tcp socks.sock_udp s') (run socks rs s)
unfolding run
run-IsConsistent socks [] s v plausible = v
run-IsConsistent socks (r ∷ rs) s v (p, plausible) =
    Safe-bind
      (λ (s', sent). IsConsistent socks.sock_tcp socks.sock_udp s' × ArePlausible socks rs s')
      (λ (s', sent). IsConsistent socks.sock_tcp socks.sock_udp s') (round socks r s) _
      (Safe-and (λ (s', sent). IsConsistent socks.sock_tcp socks.sock_udp s')
        (λ (s', sent). ArePlausible socks rs s') (round socks r s)
        (unfold round in
          scan-IsConsistent socks r p.id_ends p.topic_ends (s.fd_max + 1) 0 s v (λ j _. p.selects j)
            (λ _. p.fresh))
        plausible)
      λ (s', sent) (v', rest).
        Safe-bind (λ (s'', later). IsConsistent socks.sock_tcp socks.sock_udp s'') _
          (run socks rs s') _ (run-IsConsistent socks rs s' v' rest) (λ (s'', later) v''. v'')

start-IsConsistent : (socks : Sockets) → IsConsistent socks.sock_tcp socks.sock_udp (start socks)
unfolding start
start-IsConsistent socks = record {
  listens = (refl, ground arith, ground arith);
  bounded = λ j w. ground (arith, w);
  known = λ j w n t u. absurd (ground (arith, w, n, t, u));
  connected = λ j c e. absurd (ground (arith, e));
  named = λ id j e. absurd (ground (arith, e));
  own_id = λ id c e. absurd (ground (arith, e));
  away = λ id ms e. absurd (ground (arith, e));
  subscribers = λ topic subs e. absurd (ground (arith, e));
}

-- From the start, and as long as what the calls return is plausible, the server throws no exception
-- and reads no string that does not end, in any sequence of rounds: each run ends in a server whose maps
-- agree with one another, or by `exit`, on the command or after a call that failed.
pub run-start-IsConsistent :
    (socks : Sockets) (rs : List Round)
    → ArePlausible socks rs (start socks)
    → Safe
        (λ (s', sent). IsConsistent socks.sock_tcp socks.sock_udp s')
        (run socks rs (start socks))
run-start-IsConsistent socks rs plausible =
    run-IsConsistent socks rs (start socks) (start-IsConsistent socks) plausible
