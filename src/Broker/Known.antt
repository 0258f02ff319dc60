-- ===== src/Broker/Known.antt =====
-- Subscriptions and stored messages of the server of tema2 stay those of known clients.
use protocoale_de_comunicati.Common.{
  ℕ, ◌≡◌, ◌⊎◌, sym, subst, Bool-cases, Option-cases, inl, inr, arith, none, some, List, [], ◌∷◌,
  ◌++◌, ◌==◌,
}
use protocoale_de_comunicati.Common.Maps.{UnorderedMap, str_eq, str_eq_iff, string_key, nat_key}
use protocoale_de_comunicati.Broker.{
  TcpClient, Subscription, SubMessage, Stored, store, send_to_subscribers, send_to_all, request,
  subscribe, unsubscribe, update_sf, sf_on,
}
use protocoale_de_comunicati.Broker.Consistent.{All}

module _ (all_clients : UnorderedMap (List ℕ) TcpClient) (active : UnorderedMap (List ℕ) ℕ) where
  abbrev pub IsAway : Stored → Type 0
  IsAway stored =
      (id : List ℕ) (ms : List SubMessage)
      → stored id ≡ some ms
      → (active id ≡ none) × ((c : TcpClient) × (all_clients id ≡ some c))

  abbrev pub AreKnown : List Subscription → Type 0
  AreKnown subs = All (λ sub. all_clients sub.client.id ≡ some sub.client) subs

  store-IsAway :
      (c : TcpClient) (m : SubMessage) (stored : Stored)
      → active c.id ≡ none
      → all_clients c.id ≡ some c
      → IsAway stored
      → IsAway (store c.id m stored)
  unfolding store
  store-IsAway c m stored off known a id ms e = elim (Bool-cases (str_eq id c.id)) [
    | inl same ↦
        let id_is : id ≡ c.id = (str_eq_iff id c.id).0 same in (rw id_is off, (c, rw id_is known))
    | inr other ↦ a id ms (elim (Option-cases (stored c.id)) [
      | inl f ↦ ground (arith, e, f, other)
      | inr (old, f) ↦ ground (arith, e, f, other)
    ])
  ]

  send_to_subscribers_cases :
      (sub : Subscription) (m : SubMessage) (stored : Stored)
      → ((send_to_subscribers sub m active stored).0 ≡ stored)
        ⊎ ((active sub.client.id ≡ none)
            × ((send_to_subscribers sub m active stored).0 ≡ store sub.client.id m stored))
  unfolding send_to_subscribers
  send_to_subscribers_cases sub m stored = elim (Option-cases (active sub.client.id)) [
    | inr (_, e) ↦ inl (ground (arith, e))
    | inl e ↦ elim (Bool-cases (sub.sf == sf_on)) [
      | inl on ↦ inr (e, ground (arith, e, on))
      | inr not_on ↦ inl (ground (arith, e, not_on))
    ]
  ]

  send_to_subscribers-IsAway :
      (sub : Subscription) (m : SubMessage) (stored : Stored)
      → all_clients sub.client.id ≡ some sub.client
      → IsAway stored
      → IsAway (send_to_subscribers sub m active stored).0
  send_to_subscribers-IsAway sub m stored known a = elim (send_to_subscribers_cases sub m stored) [
    | inl e ↦ subst IsAway (sym e) a
    | inr (off, e) ↦ subst IsAway (sym e) (store-IsAway sub.client m stored off known a)
  ]

  pub send_to_all-IsAway :
      (subs : List Subscription) (m : SubMessage) (stored : Stored)
      → AreKnown subs
      → IsAway stored
      → IsAway (send_to_all subs m active stored).0
  unfolding send_to_all
  send_to_all-IsAway [] m stored known a = a
  send_to_all-IsAway (sub ∷ subs) m stored (k, known) a =
      send_to_all-IsAway subs m (send_to_subscribers sub m active stored).0 known
        (send_to_subscribers-IsAway sub m stored k a)

  update_sf-AreKnown :
      (id : List ℕ) (sf : ℕ) (subs subs' : List Subscription)
      → AreKnown subs
      → update_sf id sf subs ≡ some subs'
      → AreKnown subs'
  unfolding update_sf
  update_sf-AreKnown id sf [] subs' known e = cc
  update_sf-AreKnown id sf (sub ∷ subs) subs' (k, known) e =
      elim (Bool-cases (str_eq sub.client.id id)) [
        | inl same ↦
            let f : record sub { sf = sf } ∷ subs ≡ subs' = ground (arith, e, same) in
            subst AreKnown f (k, known)
        | inr other ↦ elim (Option-cases (update_sf id sf subs)) [
          | inl g ↦ absurd (ground (arith, e, other, g))
          | inr (rest, g) ↦
              let f : sub ∷ rest ≡ subs' = ground (arith, e, other, g) in
              subst AreKnown f (k, update_sf-AreKnown id sf subs rest known g)
        ]
      ]

  append-AreKnown :
      (subs : List Subscription) (sub : Subscription)
      → AreKnown subs
      → all_clients sub.client.id ≡ some sub.client
      → AreKnown (subs ++ sub ∷ [])
  append-AreKnown [] sub known k = (k, tt)
  append-AreKnown (s ∷ subs) sub (j, known) k = (j, append-AreKnown subs sub known k)

  unsubscribe-AreKnown :
      (id : List ℕ) (subs : List Subscription) → AreKnown subs → AreKnown (unsubscribe id subs)
  unfolding unsubscribe
  unsubscribe-AreKnown id [] known = tt
  unsubscribe-AreKnown id (sub ∷ subs) (k, known) = elim (Bool-cases (str_eq sub.client.id id)) [
    | inl same ↦ rw (same, AreKnown) known
    | inr other ↦ rw (other, AreKnown) (k, unsubscribe-AreKnown id subs known)
  ]

  subscribe-AreKnown :
      (c : TcpClient) (sf : ℕ) (subs : List Subscription)
      → all_clients c.id ≡ some c
      → AreKnown subs
      → AreKnown (subscribe c sf subs)
  unfolding subscribe
  subscribe-AreKnown c sf subs k known = elim (Option-cases (update_sf c.id sf subs)) [
    | inl e ↦ rw (e, All) (append-AreKnown subs (record { client = c; sf = sf }) known k)
    | inr (subs', e) ↦ rw (e, All) (update_sf-AreKnown c.id sf subs subs' known e)
  ]

  pub request-AreKnown :
      (c : TcpClient) (topic : List ℕ) (sf req_type : ℕ) (subs : List Subscription)
      → all_clients c.id ≡ some c
      → AreKnown subs
      → AreKnown (request c topic sf req_type subs)
  unfolding request
  request-AreKnown c topic sf req_type subs k known = elim (Bool-cases (req_type == b'0')) [
    | inl on ↦ rw on (subscribe-AreKnown c sf subs k known)
    | inr not_on ↦
        rw (not_on, AreKnown)
          (elim (Bool-cases (req_type == b'1')) [
            | inl off ↦ rw (off, AreKnown) (unsubscribe-AreKnown c.id subs known)
            | inr not_off ↦ rw (not_off, AreKnown) known
          ])
  ]
