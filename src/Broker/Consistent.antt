-- ===== src/Broker/Consistent.antt =====
-- What the maps of the server of tema2 say of one another.
use protocoale_de_comunicati.Common.{
  ℕ, ◌≤◌, ◌≡◌, ◌≢◌, sym, ap, true, false, Bool-cases, Option-cases, inl, inr, arith, none, some,
  List, [], ◌∷◌, ◌==◌, if◌then◌else◌,
}
use protocoale_de_comunicati.Common.Maps.{
  UnorderedMap, insert, erase, str_eq, str_eq_iff, string_key, nat_key,
}
use protocoale_de_comunicati.Broker.Subscriptions.{AreUnique}
use protocoale_de_comunicati.Broker.{TcpClient, Subscription, SubMessage, Server, watch}

abbrev pub All {ℓ} : {A : Type ℓ} → (A → Type 0) → List A → Type 0
All P [] = Unit
All P (x ∷ xs) = P x × All P xs

pub All-mono {ℓ} :
    {A : Type ℓ} {P Q : A → Type 0} (xs : List A) → All P xs → ((x : A) → P x → Q x) → All Q xs
All-mono [] all weaken = tt
All-mono (x ∷ xs) (p, all) weaken = (weaken x p, All-mono xs all weaken)

-- Every other descriptor in the set is a client's, each client that is connected has one descriptor and
-- one entry in each map, and what is stored is for a client that is not connected. Subscriptions and
-- stored messages are of clients that have been connected, and no client is subscribed twice.
pub record IsConsistent (sock_tcp sock_udp : ℕ) (s : Server) : Type 0 where
  pub listens : (s.read_fds 0 ≡ true) × (s.read_fds sock_tcp ≡ true) × (s.read_fds sock_udp ≡ true)
  pub bounded : (j : ℕ) → s.read_fds j ≡ true → j ≤ s.fd_max
  pub known :
      (i : ℕ)
      → s.read_fds i ≡ true
      → i ≢ 0
      → i ≢ sock_tcp
      → i ≢ sock_udp
      → (c : TcpClient) × (s.active_clients i ≡ some c)
  pub connected :
      (i : ℕ) (c : TcpClient)
      → s.active_clients i ≡ some c
      → (i ≢ 0)
        × (i ≢ sock_tcp)
        × (i ≢ sock_udp)
        × (s.read_fds i ≡ true)
        × (s.active_ids_sockets c.id ≡ some i)
  pub named :
      (id : List ℕ) (i : ℕ)
      → s.active_ids_sockets id ≡ some i
      → (c : TcpClient) × (s.active_clients i ≡ some c) × (c.id ≡ id) × (s.all_clients id ≡ some c)
  pub own_id : (id : List ℕ) (c : TcpClient) → s.all_clients id ≡ some c → c.id ≡ id
  pub away :
      (id : List ℕ) (ms : List SubMessage)
      → s.store_and_forward id ≡ some ms
      → (s.active_ids_sockets id ≡ none) × ((c : TcpClient) × (s.all_clients id ≡ some c))
  pub subscribers :
      (topic : List ℕ) (subs : List Subscription)
      → s.topics_subs topic ≡ some subs
      → All (λ sub. s.all_clients sub.client.id ≡ some sub.client) subs × AreUnique subs

module _ (sock_tcp sock_udp : ℕ) (s : Server) (v : IsConsistent sock_tcp sock_udp s) where
  pub gone-IsConsistent :
      (i : ℕ) (client : TcpClient)
      → s.active_clients i ≡ some client
      → IsConsistent sock_tcp sock_udp (record s {
        read_fds = λ j. if j == i then false else s.read_fds j;
        active_ids_sockets = erase client.id s.active_ids_sockets;
        active_clients = erase i s.active_clients;
      })
  gone-IsConsistent i client here =
      let (a, b, c, watched, at) = v.connected i client here in
      record {
        listens = (ground (arith, v.listens), ground (arith, v.listens), ground (arith, v.listens));
        bounded = λ j w. v.bounded j (ground (arith, w));
        known = λ j w n t u. elim (Bool-cases (j == i)) [
          | inl same ↦ absurd (ground (arith, w, same))
          | inr other ↦ let (d, e) = v.known j (ground (arith, w, other)) n t u in (d, rw other e)
        ];
        connected = λ j d e. elim (Bool-cases (j == i)) [
          | inl same ↦ absurd (ground (arith, e, same))
          | inr other ↦
              let (n, t, u, w, f) = v.connected j d (ground (arith, e, other)) in
              (n, t, u, rw other w, ground (arith, other, f, at, str_eq_iff d.id client.id))
        ];
        named = λ id j e. elim (Bool-cases (str_eq id client.id)) [
          | inl same ↦ absurd (ground (arith, e, same))
          | inr other ↦
              let (d, f, g, h) = v.named id j (ground (arith, e, other)) in
              (d, ground (arith, f, g, here, other, str_eq_iff id client.id), g, h)
        ];
        own_id = v.own_id;
        away = λ id ms e. let (f, known) = v.away id ms e in (ground (arith, f), known);
        subscribers = v.subscribers;
      }

  unused :
      (fd : ℕ)
      → s.read_fds fd ≡ false
      → (s.active_clients fd ≡ none) × (fd ≢ 0) × (fd ≢ sock_tcp) × (fd ≢ sock_udp)
  unused fd fresh =
      let (a, b, c) = v.listens in
      (
        elim (Option-cases (s.active_clients fd)) [
          | inl e ↦ e
          | inr (client, e) ↦
              let (_, _, _, w, _) = v.connected fd client e in absurd (ground (arith, w, fresh))
        ],
        λ e. ground (arith, a, fresh, ap s.read_fds e),
        λ e. ground (arith, b, fresh, ap s.read_fds e),
        λ e. ground (arith, c, fresh, ap s.read_fds e),
      )

  -- A client that connects, on a descriptor that was not in use. The two maps that are left open
  -- keep what they say of other clients.
  pub joined-IsConsistent :
      (fd : ℕ) (client : TcpClient) (all_clients : UnorderedMap (List ℕ) TcpClient)
      (stored : UnorderedMap (List ℕ) (List SubMessage))
      → s.read_fds fd ≡ false
      → s.active_ids_sockets client.id ≡ none
      → all_clients client.id ≡ some client
      → ((id : List ℕ) (c : TcpClient) → s.all_clients id ≡ some c → all_clients id ≡ some c)
      → ((id : List ℕ) (c : TcpClient) → all_clients id ≡ some c → c.id ≡ id)
      → stored client.id ≡ none
      → ((id : List ℕ) (ms : List SubMessage)
          → stored id ≡ some ms
          → s.store_and_forward id ≡ some ms)
      → IsConsistent sock_tcp sock_udp (record (watch fd s) {
        active_clients = insert fd client s.active_clients;
        active_ids_sockets = insert client.id fd s.active_ids_sockets;
        all_clients = all_clients;
        store_and_forward = stored;
      })
  unfolding watch
  joined-IsConsistent fd client all_clients stored fresh new now grows own none_left fewer =
      let (free, zero', tcp, udp) = unused fd fresh in
      record {
        listens = (ground (arith, v.listens), ground (arith, v.listens), ground (arith, v.listens));
        bounded = λ j w. elim (Bool-cases (j == fd)) [
          | inl same ↦ ground (arith, same)
          | inr other ↦
              let old : j ≤ s.fd_max = v.bounded j (ground (arith, w, other)) in ground (arith, old)
        ];
        known = λ j w n t u. elim (Bool-cases (j == fd)) [
          | inl same ↦ (client, ground (arith, same, free))
          | inr other ↦ let (d, e) = v.known j (ground (arith, w, other)) n t u in (d, rw other e)
        ];
        connected = λ j d e. elim (Bool-cases (j == fd)) [
          | inl same ↦
              let d_is : d ≡ client = ground (arith, e, same, free) in
              let j_is : j ≡ fd = ground (arith, same) in
              rw (d_is, j_is)
                (zero', tcp, udp, ground arith, ground (arith, new, str_eq_iff client.id client.id))
          | inr other ↦
              let (n, t, u, w, f) = v.connected j d (ground (arith, e, other)) in
              (n, t, u, rw other w, ground (arith, f, new, str_eq_iff d.id client.id))
        ];
        named = λ id j e. elim (Bool-cases (str_eq id client.id)) [
          | inl same ↦
              let id_is : id ≡ client.id = (str_eq_iff id client.id).0 same in
              let j_is : fd ≡ j = ground (arith, e, same, new) in
              (client, ground (arith, j_is, free), sym id_is, rw id_is now)
          | inr other ↦
              let (d, f, g, h) = v.named id j (ground (arith, e, other)) in
              (d, ground (arith, f, free), g, grows id d h)
        ];
        own_id = own;
        away = λ id ms e.
            let (f, (c, g)) = v.away id ms (fewer id ms e) in
            (ground (arith, f, e, none_left, str_eq_iff id client.id), (c, grows id c g));
        subscribers = λ topic subs e.
            let (all, unique) = v.subscribers topic subs e in
            (All-mono subs all (λ sub p. grows sub.client.id sub.client p), unique);
      }
