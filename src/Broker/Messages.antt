-- ===== src/Broker/Messages.antt =====
-- Publishing and requests keep the maps of the server of tema2 consistent.
use protocoale_de_comunicati.Common.{
  ℕ, zero, suc, ◌+◌, ◌≤◌, ◌<◌, ◌≡◌, ◌≢◌, refl, subst, true, Bool-cases, Option-cases, inl, inr,
  arith, Option, none, some, List, [], ◌∷◌, ok, Safe, Safe-bind, Safe-of_Returns, take, length,
}
use protocoale_de_comunicati.Common.Maps.{insert, assign, str_eq, string_key, nat_key}
use protocoale_de_comunicati.Broker.Subscriptions.{AreUnique, request-AreUnique}
use protocoale_de_comunicati.Broker.{
  TcpClient, Subscription, SubMessage, Server, Stored, Subs, disconnect, publish,
  handle_udp_message, handle_tcp_message, handle_request, request, c_string, topic_len, udp_message,
  byte_at,
}
use protocoale_de_comunicati.Broker.Consistent.{IsConsistent}
use protocoale_de_comunicati.Broker.Known.{IsAway, AreKnown, send_to_all-IsAway, request-AreKnown}
use protocoale_de_comunicati.Broker.Safety.{disconnect-IsConsistent}

-- Fewer bytes than the array has leave it a NUL.
pub c_string_short :
    (room : ℕ) (bytes : List ℕ) → length bytes < room → Safe (λ s. Unit) (c_string room bytes)
unfolding c_string
c_string_short zero bytes lt = absurd (omega arith)
c_string_short (suc room) [] lt = tt
c_string_short (suc room) (zero ∷ bytes) lt = tt
c_string_short (suc room) (suc c ∷ bytes) lt =
    Safe-bind (λ s. Unit) (λ s. Unit) (c_string room bytes) (λ s. ok (suc c ∷ s))
      (c_string_short room bytes (omega arith)) (λ s _. tt)

pub length-take-le : (n : ℕ) (bytes : List ℕ) → length (take n bytes) ≤ n
length-take-le zero bytes = omega arith
length-take-le (suc n) [] = omega arith
length-take-le (suc n) (c ∷ bytes) = omega (arith, length-take-le n bytes)

module _ (sock_tcp sock_udp : ℕ) (s : Server) (v : IsConsistent sock_tcp sock_udp s) where
  topics-IsConsistent :
      (topics : Subs)
      → ((topic : List ℕ) (subs : List Subscription)
          → topics topic ≡ some subs
          → AreKnown s.all_clients s.active_ids_sockets subs × AreUnique subs)
      → IsConsistent sock_tcp sock_udp (record s { topics_subs = topics })
  topics-IsConsistent topics subscribers = record {
    listens = v.listens;
    bounded = v.bounded;
    known = v.known;
    connected = v.connected;
    named = v.named;
    own_id = v.own_id;
    away = v.away;
    subscribers = subscribers;
  }

  stored-IsConsistent :
      (stored : Stored)
      → IsAway s.all_clients s.active_ids_sockets stored
      → IsConsistent sock_tcp sock_udp (record s { store_and_forward = stored })
  stored-IsConsistent stored away = record {
    listens = v.listens;
    bounded = v.bounded;
    known = v.known;
    connected = v.connected;
    named = v.named;
    own_id = v.own_id;
    away = away;
    subscribers = v.subscribers;
  }

  publish-IsConsistent :
      (topic : List ℕ) (m : SubMessage) → IsConsistent sock_tcp sock_udp (publish topic m s).0
  unfolding publish
  publish-IsConsistent topic m = elim (Option-cases (s.topics_subs topic)) [
    | inl e ↦
        rw (e, publish)
          (topics-IsConsistent (insert topic [] s.topics_subs) (λ t subs f.
            elim (Bool-cases (str_eq t topic)) [
              | inl same ↦
                  let g : [] ≡ subs = ground (arith, e, f, same) in
                  subst (λ l. AreKnown s.all_clients s.active_ids_sockets l × AreUnique l) g
                    (tt, tt)
              | inr other ↦ v.subscribers t subs (ground (arith, f, other))
            ]))
    | inr (subs, e) ↦
        rw (e, publish)
          (stored-IsConsistent _ (
            send_to_all-IsAway s.all_clients s.active_ids_sockets subs m s.store_and_forward
              (v.subscribers topic subs e).0 v.away))
  ]

  pub handle_udp_message-IsConsistent :
      (received : Option (ℕ × List ℕ))
      → Safe (λ (s', sent). IsConsistent sock_tcp sock_udp s') (handle_udp_message received s)
  unfolding handle_udp_message
  handle_udp_message-IsConsistent none = tt
  handle_udp_message-IsConsistent (some (from, buffer)) =
      Safe-bind (λ topic. Unit) (λ (s', sent). IsConsistent sock_tcp sock_udp s')
        (c_string (topic_len + 1) (udp_message buffer).topic) _
        (c_string_short (topic_len + 1) (take topic_len buffer)
          (omega (arith, length-take-le topic_len buffer)))
        λ topic _. publish-IsConsistent topic _

  connected_known :
      (i : ℕ) (client : TcpClient)
      → s.active_clients i ≡ some client
      → s.all_clients client.id ≡ some client
  connected_known i client here =
      let (_, _, _, _, at) = v.connected i client here in
      let (d, e, _, known) = v.named client.id i at in ground (arith, here, e, known)

  changed :
      (topic : List ℕ) (subs subs' : List Subscription)
      → s.topics_subs topic ≡ some subs
      → AreKnown s.all_clients s.active_ids_sockets subs' × AreUnique subs'
      → (t : List ℕ) (found : List Subscription) → assign topic subs' s.topics_subs t ≡ some found
      → AreKnown s.all_clients s.active_ids_sockets found × AreUnique found
  changed topic subs subs' e known t found f = elim (Bool-cases (str_eq t topic)) [
    | inl same ↦
        let g : subs' ≡ found = ground (arith, f, same) in
        subst (λ l. AreKnown s.all_clients s.active_ids_sockets l × AreUnique l) g known
    | inr other ↦ v.subscribers t found (ground (arith, f, other))
  ]

  handle_request-IsConsistent :
      (i : ℕ) (req : List ℕ)
      → s.read_fds i ≡ true
      → i ≢ 0
      → i ≢ sock_tcp
      → i ≢ sock_udp
      → Safe (λ topic. Unit) (c_string (topic_len + 1) req)
      → Safe (λ (s', sent). IsConsistent sock_tcp sock_udp s') (handle_request i req s)
  unfolding handle_request
  handle_request-IsConsistent i req w n t u ends =
      Safe-bind (λ topic. Unit) (λ (s', sent). IsConsistent sock_tcp sock_udp s')
        (c_string (topic_len + 1) req) _ ends
        λ topic _. elim (Option-cases (s.topics_subs topic)) [
          | inl e ↦ rw (e, Safe) v
          | inr (subs, e) ↦
              let (client, here) = v.known i w n t u in
              let subs' =
                request client topic (byte_at req (topic_len + 1)) (byte_at req (topic_len + 2))
                  subs in
              rw (e, here, Safe)
                (topics-IsConsistent (assign topic subs' s.topics_subs) (
                  changed topic subs subs' e (
                    request-AreKnown s.all_clients s.active_ids_sockets client topic
                        (byte_at req (topic_len + 1)) (byte_at req (topic_len + 2)) subs
                        (connected_known i client here) (v.subscribers topic subs e).0,
                    request-AreUnique client topic (byte_at req (topic_len + 1))
                        (byte_at req (topic_len + 2)) subs (v.subscribers topic subs e).1,
                  )))
        ]

  pub handle_tcp_message-IsConsistent :
      (i : ℕ) (received : Option (List ℕ))
      → s.read_fds i ≡ true
      → i ≢ 0
      → i ≢ sock_tcp
      → i ≢ sock_udp
      → ((req : List ℕ) → received ≡ some req → Safe (λ topic. Unit) (c_string (topic_len + 1) req))
      → Safe (λ (s', sent). IsConsistent sock_tcp sock_udp s') (handle_tcp_message i received s)
  unfolding handle_tcp_message
  handle_tcp_message-IsConsistent i none w n t u ends = tt
  handle_tcp_message-IsConsistent i (some []) w n t u ends =
      Safe-of_Returns (λ (s', sent). IsConsistent sock_tcp sock_udp s') (disconnect i s)
        (disconnect-IsConsistent sock_tcp sock_udp s v i w n t u)
  handle_tcp_message-IsConsistent i (some (c ∷ cs)) w n t u ends =
      handle_request-IsConsistent i (c ∷ cs) w n t u (ends (c ∷ cs) refl)
