-- ===== src/Broker/Delivery.antt =====
-- Store and forward in the server of tema2: what is published while a client is away.
use mathlib.Core.List.{append_assoc, append-nil}
use protocoale_de_comunicati.Common.{
  ℕ, ◌+◌, ◌≡◌, refl, sym, ap, subst, ◌∙◌, true, Option-cases, inl, inr, arith, none, some, List, [],
  ◌∷◌, ◌++◌, if◌then◌else◌, Outcome, ok, ◌>>=◌, Returns, Returns-bind, Returns-mono, take,
}
use protocoale_de_comunicati.Common.Maps.{erase, str_eq, str_eq_iff, string_key, nat_key}
use protocoale_de_comunicati.Broker.Store.{
  stored_for, until_nul, c_string-until_nul, wants, AreOnce, publish-IsPublished,
}
use protocoale_de_comunicati.Broker.Consistent.{IsConsistent}
use protocoale_de_comunicati.Broker.Messages.{length-take-le}
use protocoale_de_comunicati.Broker.{
  TcpClient, SubMessage, Server, Sent, Stored, publish, handle_udp_message,
  handle_connection_request, greet, reconnect, watch, forward, c_string, topic_len, max_id_len,
  udp_message,
}

-- The datagrams that come, one after the other, while nothing else does.
abbrev pub receive_all : List (ℕ × List ℕ) → Server → Outcome (Server × Sent)
receive_all [] s = ok (s, [])
receive_all (d ∷ ds) s = handle_udp_message (some d) s >>= λ (s', sent).
    receive_all ds s' >>= λ (s'', later). ok (s'', sent ++ later)

-- The messages of the datagrams whose topic the client is subscribed to with `sf` on.
abbrev pub missed : (id : List ℕ) → Server → List (ℕ × List ℕ) → List SubMessage
missed id s [] = []
missed id s ((from_station, buffer) ∷ ds) =
    (if wants id (until_nul (take topic_len buffer)) s
      then record { message = udp_message buffer; from_station = from_station } ∷ []
      else [])
    ++ missed id s ds

-- What is left when they have come.
record IsKept (id : List ℕ) (ds : List (ℕ × List ℕ)) (s s' : Server) : Type 0 where
  active : s'.active_ids_sockets ≡ s.active_ids_sockets
  all : s'.all_clients ≡ s.all_clients
  stored : stored_for id s'.store_and_forward ≡ stored_for id s.store_and_forward ++ missed id s ds

missed_same :
    (id : List ℕ) (s s' : Server) (ds : List (ℕ × List ℕ))
    → ((t : List ℕ) → wants id t s' ≡ wants id t s)
    → missed id s' ds ≡ missed id s ds
missed_same id s s' [] same = refl
missed_same id s s' ((from, buffer) ∷ ds) same =
    rw (same (until_nul (take topic_len buffer)), missed_same id s s' ds same) refl

receive_all-IsKept :
    (id : List ℕ) (ds : List (ℕ × List ℕ)) (s : Server)
    → s.active_ids_sockets id ≡ none
    → AreOnce s
    → Returns (λ (s', sent). IsKept id ds s s') (receive_all ds s)
unfolding handle_udp_message
receive_all-IsKept id [] s off once = record {
  active = refl;
  all = refl;
  stored = sym (append-nil (stored_for id s.store_and_forward));
}
receive_all-IsKept id ((from, buffer) ∷ ds) s off once =
    let topic = until_nul (take topic_len buffer) in
    let m : SubMessage = record { message = udp_message buffer; from_station = from } in
    let s' = (publish topic m s).0 in
    let p = publish-IsPublished id topic m s off once in
    let read : c_string (topic_len + 1) (udp_message buffer).topic ≡ ok topic =
      c_string-until_nul (topic_len + 1) (take topic_len buffer)
        (omega (arith, length-take-le topic_len buffer)) in
    rw (read, Returns)
      (Returns-bind (λ (s'', sent). IsKept id ds s' s'')
        (λ (s'', sent). IsKept id ((from, buffer) ∷ ds) s s'') (receive_all ds s') _
        (receive_all-IsKept id ds s' (rw p.active off) p.once)
        λ (s'', sent) k. record {
          active = k.active ∙ p.active;
          all = k.all ∙ p.all;
          stored =
              k.stored
              ∙ ap (λ l. l ++ missed id s' ds) p.stored
              ∙ append_assoc (stored_for id s.store_and_forward) _ (missed id s' ds)
              ∙ ap
                  (λ l.
                    stored_for id s.store_and_forward
                    ++ ((if wants id topic s then m ∷ [] else []) ++ l))
                  (missed_same id s s' ds p.wanted);
        })

-- What a client that comes back on descriptor `fd` finds: all that was stored for it is sent, to the
-- socket of `all_clients`, and nothing is left.
abbrev pub Delivered :
    (id : List ℕ) (fd : ℕ) (c : TcpClient) → List SubMessage → Server × Sent → Type 0
Delivered id fd c ms (s', sent) =
    (sent ≡ forward c.socket ms)
    × (s'.active_ids_sockets id ≡ some fd)
    × (stored_for id s'.store_and_forward ≡ [])

stored_for-erase : (id : List ℕ) (stored : Stored) → stored_for id (erase id stored) ≡ []
stored_for-erase id stored =
    let itself : str_eq id id ≡ true = (str_eq_iff id id).1 refl in rw (stored_for, itself) refl

reconnect-Delivered :
    (id : List ℕ) (fd : ℕ) (c : TcpClient) (s : Server)
    → s.all_clients id ≡ some c
    → c.id ≡ id
    → s.active_ids_sockets id ≡ none
    → Returns (Delivered id fd c (stored_for id s.store_and_forward)) (reconnect id fd (watch fd s))
unfolding reconnect watch forward
reconnect-Delivered id fd c s known same off = elim (Option-cases (s.store_and_forward id)) [
  | inl e ↦
      rw (known, same, e, Returns)
        (ground (arith, e), ground (arith, off, str_eq_iff id id), ground (arith, e))
  | inr (ms, e) ↦
      rw (known, same, e, Returns)
        (
          ground (arith, e),
          ground (arith, off, str_eq_iff id id),
          rw same (stored_for-erase id s.store_and_forward),
        )
]

-- A client that the server knows is away. Whatever datagrams come until it connects again, on
-- whatever descriptor, they are received; at its connection the server sends it what had been stored
-- before and then exactly the messages on the topics to which it is subscribed with `sf` on, in the
-- order in which they came; nothing is left stored for it, and it counts as connected. They go to
-- the socket that the server has in `all_clients`.
pub receive_all-Delivered :
    (sock_tcp sock_udp : ℕ) (s : Server) (id bytes : List ℕ) (fd : ℕ) (c : TcpClient)
    (ds : List (ℕ × List ℕ))
    → IsConsistent sock_tcp sock_udp s
    → s.all_clients id ≡ some c
    → s.active_ids_sockets id ≡ none
    → c_string max_id_len bytes ≡ ok id
    → Returns
        (λ (s', sent).
          Returns
            (Delivered id fd c (stored_for id s.store_and_forward ++ missed id s ds))
            (handle_connection_request (some fd) (some bytes) s'))
        (receive_all ds s)
unfolding handle_connection_request greet
receive_all-Delivered sock_tcp sock_udp s id bytes fd c ds v known off read =
    Returns-mono (receive_all ds s)
      (receive_all-IsKept id ds s off (λ topic subs e. (v.subscribers topic subs e).1))
      λ (s', sent) k.
        let known' : s'.all_clients id ≡ some c = rw k.all known in
        let off' : s'.active_ids_sockets id ≡ none = rw k.active off in
        rw (read, off', known', Returns)
          (subst (λ ms. Returns (Delivered id fd c ms) (reconnect id fd (watch fd s'))) k.stored
            (reconnect-Delivered id fd c s' known' (v.own_id id c known) off'))
