-- ===== src/Broker/Served.antt =====
-- What the handlers of tema2/server_helper.cpp do to the set of descriptors.
use protocoale_de_comunicati.Common.{
  ℕ, ◌+◌, ◌≡◌, ◌≢◌, refl, true, false, Option-cases, inl, inr, arith, Option, none, some, List, [],
  ◌∷◌, Whenever, Whenever-bind, Whenever-all, Whenever-mono,
}
use protocoale_de_comunicati.Broker.{
  SubMessage, Server, watch, reconnect, add_new_client, greet, disconnect, publish,
  handle_connection_request, handle_udp_message, handle_tcp_message, handle_request, c_string,
  max_id_len, topic_len, udp_message,
}

-- What may become of the set while descriptor `i` is served.
pub record IsServed (sock_tcp i : ℕ) (s s' : Server) : Type 0 where
  pub stays : (j : ℕ) → j ≢ i → s.read_fds j ≡ true → s'.read_fds j ≡ true
  pub shrinks : i ≢ sock_tcp → (j : ℕ) → s.read_fds j ≡ false → s'.read_fds j ≡ false

pub same_set :
    (sock_tcp i : ℕ) (s s' : Server) → s'.read_fds ≡ s.read_fds → IsServed sock_tcp i s s'
same_set sock_tcp i s s' e = record { stays = λ j _ w. rw e w; shrinks = λ _ j w. rw e w }

module _ (s : Server) where
  reconnect-read_fds :
      (id : List ℕ) (fd : ℕ) → Whenever (λ (s', sent). s'.read_fds ≡ s.read_fds) (reconnect id fd s)
  unfolding reconnect
  reconnect-read_fds id fd = elim (Option-cases (s.all_clients id)) [
    | inl e ↦ rw (e, Whenever) tt
    | inr (c, e) ↦ elim (Option-cases (s.store_and_forward c.id)) [
      | inl f ↦ rw (e, f, Whenever) refl
      | inr (ms, f) ↦ rw (e, f, Whenever) refl
    ]
  ]

  publish-read_fds : (topic : List ℕ) (m : SubMessage) → (publish topic m s).0.read_fds ≡ s.read_fds
  unfolding publish
  publish-read_fds topic m = ground arith

  handle_request-read_fds :
      (i : ℕ) (req : List ℕ)
      → Whenever (λ (s', sent). s'.read_fds ≡ s.read_fds) (handle_request i req s)
  unfolding handle_request
  handle_request-read_fds i req =
      Whenever-bind (λ topic. Unit) (λ (s', sent). s'.read_fds ≡ s.read_fds)
        (c_string (topic_len + 1) req) _
        (Whenever-all (λ topic. Unit) (c_string (topic_len + 1) req) (λ topic. tt))
        λ topic _. elim (Option-cases (s.topics_subs topic)) [
          | inl e ↦ rw (e, Whenever) refl
          | inr (subs, e) ↦ elim (Option-cases (s.active_clients i)) [
            | inl f ↦ rw (e, f, Whenever) tt
            | inr (client, f) ↦ rw (e, f, Whenever) refl
          ]
        ]

module _ (sock_tcp : ℕ) (s : Server) where
  watched :
      (fd : ℕ) (s' : Server) → s'.read_fds ≡ (watch fd s).read_fds → IsServed sock_tcp sock_tcp s s'
  unfolding watch
  watched fd s' e = record {
    stays = λ j _ w. rw e (ground (arith, w));
    shrinks = λ other j w. absurd (other refl);
  }

  greet-IsServed :
      (fd : ℕ) (id : List ℕ)
      → Whenever (λ (s', sent). IsServed sock_tcp sock_tcp s s') (greet fd id s)
  unfolding greet add_new_client watch
  greet-IsServed fd id = elim (Option-cases (s.active_ids_sockets id)) [
    | inr (_, e) ↦ rw (e, Whenever) (same_set sock_tcp sock_tcp s s refl)
    | inl e ↦ elim (Option-cases (s.all_clients id)) [
      | inl f ↦ rw (e, f, Whenever) (watched fd _ refl)
      | inr (c, f) ↦
          rw (e, f, Whenever)
            (Whenever-mono (λ (s', sent). s'.read_fds ≡ (watch fd s).read_fds)
              (λ (s', sent). IsServed sock_tcp sock_tcp s s') (reconnect id fd (watch fd s))
              (reconnect-read_fds (watch fd s) id fd) (λ (s', sent) g. watched fd s' g))
    ]
  ]

  pub handle_connection_request-IsServed :
      (accepted : Option ℕ) (received : Option (List ℕ))
      → Whenever
          (λ (s', sent). IsServed sock_tcp sock_tcp s s')
          (handle_connection_request accepted received s)
  unfolding handle_connection_request
  handle_connection_request-IsServed none received = tt
  handle_connection_request-IsServed (some fd) none = tt
  handle_connection_request-IsServed (some fd) (some bytes) =
      Whenever-bind (λ id. Unit) (λ (s', sent). IsServed sock_tcp sock_tcp s s')
        (c_string max_id_len bytes) (λ id. greet fd id s)
        (Whenever-all (λ id. Unit) (c_string max_id_len bytes) (λ id. tt))
        (λ id _. greet-IsServed fd id)

  pub handle_udp_message-IsServed :
      (i : ℕ) (received : Option (ℕ × List ℕ))
      → Whenever (λ (s', sent). IsServed sock_tcp i s s') (handle_udp_message received s)
  unfolding handle_udp_message
  handle_udp_message-IsServed i none = tt
  handle_udp_message-IsServed i (some (from, buffer)) =
      Whenever-bind (λ topic. Unit) (λ (s', sent). IsServed sock_tcp i s s')
        (c_string (topic_len + 1) (udp_message buffer).topic) _
        (Whenever-all (λ id. Unit) (c_string (topic_len + 1) (udp_message buffer).topic) (λ id. tt))
        (λ topic _. same_set sock_tcp i s _ (publish-read_fds s topic _))

  pub handle_tcp_message-IsServed :
      (i : ℕ) (received : Option (List ℕ))
      → Whenever (λ (s', sent). IsServed sock_tcp i s s') (handle_tcp_message i received s)
  unfolding handle_tcp_message disconnect
  handle_tcp_message-IsServed i none = tt
  handle_tcp_message-IsServed i (some []) = elim (Option-cases (s.active_clients i)) [
    | inl e ↦ rw (e, Whenever) tt
    | inr (client, e) ↦
        rw (e, Whenever)
          (record {
            stays = λ j other w. ground (arith, w, other);
            shrinks = λ _ j w. ground (arith, w);
          })
  ]
  handle_tcp_message-IsServed i (some (c ∷ cs)) =
      Whenever-mono (λ (s', sent). s'.read_fds ≡ s.read_fds)
        (λ (s', sent). IsServed sock_tcp i s s') (handle_request i (c ∷ cs) s)
        (handle_request-read_fds s i (c ∷ cs)) (λ (s', sent) e. same_set sock_tcp i s s' e)
