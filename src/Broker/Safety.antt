-- ===== src/Broker/Safety.antt =====
-- The handlers of tema2/server_helper.cpp keep the maps consistent and throw no exception.
use protocoale_de_comunicati.Common.{
  ℕ, ◌≡◌, ◌≢◌, refl, sym, ap, ◌∙◌, true, false, Bool-cases, Option-cases, inl, inr, arith, Option,
  none, some, List, Returns, Safe, Safe-bind, Safe-of_Returns,
}
use protocoale_de_comunicati.Common.Maps.{
  UnorderedMap, insert, erase, str_eq, str_eq_iff, string_key, nat_key,
}
use protocoale_de_comunicati.Broker.{
  TcpClient, SubMessage, Server, Stored, reconnect, add_new_client, watch, greet, disconnect,
  handle_connection_request, c_string, max_id_len,
}
use protocoale_de_comunicati.Broker.Consistent.{
  IsConsistent, gone-IsConsistent, joined-IsConsistent,
}

module _ (sock_tcp sock_udp : ℕ) (s : Server) (v : IsConsistent sock_tcp sock_udp s) where
  pub disconnect-IsConsistent :
      (i : ℕ)
      → s.read_fds i ≡ true
      → i ≢ 0
      → i ≢ sock_tcp
      → i ≢ sock_udp
      → Returns (λ (s', sent). IsConsistent sock_tcp sock_udp s') (disconnect i s)
  unfolding disconnect
  disconnect-IsConsistent i w n t u =
      let (client, here) = v.known i w n t u in
      rw (here, Returns) (gone-IsConsistent sock_tcp sock_udp s v i client here)

  reconnect-IsConsistent :
      (fd : ℕ) (id : List ℕ) (client : TcpClient)
      → s.read_fds fd ≡ false
      → s.active_ids_sockets id ≡ none
      → s.all_clients id ≡ some client
      → Returns (λ (s', sent). IsConsistent sock_tcp sock_udp s') (reconnect id fd (watch fd s))
  unfolding reconnect watch
  reconnect-IsConsistent fd id client fresh new e =
      elim (Option-cases (s.store_and_forward client.id)) [
        | inl nothing ↦ rw (e, nothing, Returns) (back s.store_and_forward nothing (λ j ms f. f))
        | inr (ms, some_ms) ↦
            rw (e, some_ms, Returns)
              (back (erase client.id s.store_and_forward)
                (ground (arith, str_eq_iff client.id client.id)) (λ j ms f. ground (arith, f)))
      ]
    where
      same : client.id ≡ id
      same = v.own_id id client e

      all_clients : UnorderedMap (List ℕ) TcpClient
      all_clients = insert id client (erase id s.all_clients)

      keeps : (j : List ℕ) → all_clients j ≡ s.all_clients j
      keeps j = ground (arith, e, str_eq_iff j id, str_eq_iff id id)

      back :
          (stored : Stored)
          → stored client.id ≡ none
          → ((j : List ℕ) (ms : List SubMessage)
              → stored j ≡ some ms
              → s.store_and_forward j ≡ some ms)
          → IsConsistent sock_tcp sock_udp (record (watch fd s) {
            active_clients = insert fd client s.active_clients;
            active_ids_sockets = insert client.id fd s.active_ids_sockets;
            all_clients = all_clients;
            store_and_forward = stored;
          })
      back stored empty fewer =
          joined-IsConsistent sock_tcp sock_udp s v fd client all_clients stored fresh (rw same new)
            (keeps client.id ∙ ap s.all_clients same ∙ e) (λ j c f. keeps j ∙ f)
            (λ j c f. v.own_id j c (sym (keeps j) ∙ f)) empty fewer

  greet-IsConsistent :
      (fd : ℕ) (id : List ℕ)
      → s.read_fds fd ≡ false
      → Returns (λ (s', sent). IsConsistent sock_tcp sock_udp s') (greet fd id s)
  unfolding greet reconnect add_new_client watch
  greet-IsConsistent fd id fresh = elim (Option-cases (s.active_ids_sockets id)) [
    | inr (_, e) ↦ rw (e, Returns) v
    | inl new ↦ elim (Option-cases (s.all_clients id)) [
      | inl e ↦
          rw (new, e, Returns)
            (joined-IsConsistent sock_tcp sock_udp s v fd (record { id = id; socket = fd })
              (insert id (record { id = id; socket = fd }) s.all_clients) s.store_and_forward fresh
              new (ground (arith, e, str_eq_iff id id))
              (λ j c f. ground (arith, e, f, str_eq_iff j id))
              (λ j c f. elim (Bool-cases (str_eq j id)) [
                | inl same ↦ ground (arith, e, f, same, str_eq_iff j id)
                | inr other ↦ v.own_id j c (ground (arith, f, other))
              ])
              (elim (Option-cases (s.store_and_forward id)) [
                | inl nothing ↦ nothing
                | inr (ms, f) ↦ let (_, (c, g)) = v.away id ms f in absurd (ground (arith, e, g))
              ])
              (λ j ms f. f))
      | inr (client, e) ↦ rw (new, e, Returns) (reconnect-IsConsistent fd id client fresh new e)
    ]
  ]

  pub handle_connection_request-IsConsistent :
      (accepted : Option ℕ) (received : Option (List ℕ))
      → ((fd : ℕ) → accepted ≡ some fd → s.read_fds fd ≡ false)
      → ((bytes : List ℕ) → received ≡ some bytes → Safe (λ id. Unit) (c_string max_id_len bytes))
      → Safe
          (λ (s', sent). IsConsistent sock_tcp sock_udp s')
          (handle_connection_request accepted received s)
  unfolding handle_connection_request
  handle_connection_request-IsConsistent none received fresh ends = tt
  handle_connection_request-IsConsistent (some fd) none fresh ends = tt
  handle_connection_request-IsConsistent (some fd) (some bytes) fresh ends =
      Safe-bind (λ id. Unit) (λ (s', sent). IsConsistent sock_tcp sock_udp s')
        (c_string max_id_len bytes) (λ id. greet fd id s) (ends bytes refl)
        (λ id _.
          Safe-of_Returns (λ (s', sent). IsConsistent sock_tcp sock_udp s') (greet fd id s)
            (greet-IsConsistent fd id (fresh fd refl)))
