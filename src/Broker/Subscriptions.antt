-- ===== src/Broker/Subscriptions.antt =====
-- The subscriptions to a topic as a map from clients to their `sf`.
use protocoale_de_comunicati.Common.{
  ℕ, ◌≡◌, refl, subst, Bool-cases, Option-cases, inl, inr, arith, Option, none, some, List, [], ◌∷◌,
  ◌++◌, ◌==◌, if◌then◌else◌,
}
use protocoale_de_comunicati.Common.Maps.{str_eq, str_eq_iff}
use protocoale_de_comunicati.Broker.{
  TcpClient, Subscription, request, subscribe, unsubscribe, update_sf,
}

-- The `sf` of a client's subscription, if it has one.
unfoldable pub sf_of : (id : List ℕ) → List Subscription → Option ℕ
sf_of id [] = none
sf_of id (sub ∷ subs) = if str_eq sub.client.id id then some sub.sf else sf_of id subs

abbrev pub AreUnique : List Subscription → Type 0
AreUnique [] = Unit
AreUnique (sub ∷ subs) = (sf_of sub.client.id subs ≡ none) × AreUnique subs

update_sf-sf_of :
    (id j : List ℕ) (sf : ℕ) (subs subs' : List Subscription)
    → update_sf id sf subs ≡ some subs'
    → sf_of j subs' ≡ (if str_eq id j then some sf else sf_of j subs)
unfolding update_sf sf_of
update_sf-sf_of id j sf [] subs' e = cc
update_sf-sf_of id j sf (sub ∷ subs) subs' e = elim (Bool-cases (str_eq sub.client.id id)) [
  | inl same ↦
      let f : record sub { sf = sf } ∷ subs ≡ subs' = ground (arith, e, same) in
      let same_id : sub.client.id ≡ id = (str_eq_iff sub.client.id id).0 same in
      rw (← f, same_id, sf_of) (ground arith)
  | inr other ↦ elim (Option-cases (update_sf id sf subs)) [
    | inl g ↦ absurd (ground (arith, e, other, g))
    | inr (rest, g) ↦
        let f : sub ∷ rest ≡ subs' = ground (arith, e, other, g) in
        rw (← f, sf_of)
          (ground (
            arith,
            update_sf-sf_of id j sf subs rest g,
            other,
            str_eq_iff id j,
            str_eq_iff sub.client.id j,
            str_eq_iff sub.client.id id,
          ))
  ]
]

update_sf-none :
    (id : List ℕ) (sf : ℕ) (subs : List Subscription)
    → update_sf id sf subs ≡ none
    → sf_of id subs ≡ none
unfolding update_sf sf_of
update_sf-none id sf [] e = refl
update_sf-none id sf (sub ∷ subs) e = elim (Bool-cases (str_eq sub.client.id id)) [
  | inl same ↦ absurd (ground (arith, e, same))
  | inr other ↦ elim (Option-cases (update_sf id sf subs)) [
    | inl g ↦ rw other (update_sf-none id sf subs g)
    | inr (rest, g) ↦ absurd (ground (arith, e, other, g))
  ]
]

append-sf_of :
    (j : List ℕ) (subs : List Subscription) (sub : Subscription)
    → sf_of sub.client.id subs ≡ none
    → sf_of j (subs ++ sub ∷ []) ≡ (if str_eq sub.client.id j then some sub.sf else sf_of j subs)
unfolding sf_of
append-sf_of j [] sub new = refl
append-sf_of j (s ∷ subs) sub new = ground (
  arith,
  new,
  append-sf_of j subs sub,
  str_eq_iff s.client.id sub.client.id,
  str_eq_iff s.client.id j,
  str_eq_iff sub.client.id j,
)

subscribe-sf_of :
    (c : TcpClient) (sf : ℕ) (subs : List Subscription) (j : List ℕ)
    → sf_of j (subscribe c sf subs) ≡ (if str_eq c.id j then some sf else sf_of j subs)
unfolding subscribe
subscribe-sf_of c sf subs j = elim (Option-cases (update_sf c.id sf subs)) [
  | inl e ↦
      rw (e, subscribe)
        (append-sf_of j subs (record { client = c; sf = sf }) (update_sf-none c.id sf subs e))
  | inr (subs', e) ↦ rw (e, subscribe) (update_sf-sf_of c.id j sf subs subs' e)
]

unsubscribe-sf_of :
    (id : List ℕ) (subs : List Subscription) (j : List ℕ)
    → AreUnique subs
    → sf_of j (unsubscribe id subs) ≡ (if str_eq id j then none else sf_of j subs)
unfolding unsubscribe sf_of
unsubscribe-sf_of id [] j u = ground arith
unsubscribe-sf_of id (sub ∷ subs) j (new, u) = ground (
  arith,
  new,
  unsubscribe-sf_of id subs j u,
  str_eq_iff sub.client.id id,
  str_eq_iff sub.client.id j,
  str_eq_iff id j,
)

-- A list of subscriptions that holds no client twice implements a map from clients to their `sf`: a
-- request of type `'0'` sets the client's entry, whether it has one or not, a request of type `'1'`
-- removes it, any other changes nothing, and no request changes another client's entry.
pub request-sf_of :
    (c : TcpClient) (topic : List ℕ) (sf req_type : ℕ) (subs : List Subscription) (j : List ℕ)
    → AreUnique subs
    → sf_of j (request c topic sf req_type subs) ≡ (
        if str_eq c.id j
        then (if req_type == b'0' then some sf else if req_type == b'1' then none else sf_of j subs)
        else sf_of j subs)
unfolding request
request-sf_of c topic sf req_type subs j u =
    ground (arith, subscribe-sf_of c sf subs j, unsubscribe-sf_of c.id subs j u)

update_sf-AreUnique :
    (id : List ℕ) (sf : ℕ) (subs subs' : List Subscription)
    → AreUnique subs
    → update_sf id sf subs ≡ some subs'
    → AreUnique subs'
unfolding update_sf
update_sf-AreUnique id sf [] subs' u e = cc
update_sf-AreUnique id sf (sub ∷ subs) subs' (new, u) e =
    elim (Bool-cases (str_eq sub.client.id id)) [
      | inl same ↦
          let f : record sub { sf = sf } ∷ subs ≡ subs' = ground (arith, e, same) in
          subst AreUnique f (new, u)
      | inr other ↦ elim (Option-cases (update_sf id sf subs)) [
        | inl g ↦ absurd (ground (arith, e, other, g))
        | inr (rest, g) ↦
            let f : sub ∷ rest ≡ subs' = ground (arith, e, other, g) in
            subst AreUnique f (
              ground (
                arith,
                new,
                other,
                update_sf-sf_of id sub.client.id sf subs rest g,
                str_eq_iff id sub.client.id,
                str_eq_iff sub.client.id id,
              ),
              update_sf-AreUnique id sf subs rest u g,
            )
      ]
    ]

append-AreUnique :
    (subs : List Subscription) (sub : Subscription)
    → AreUnique subs
    → sf_of sub.client.id subs ≡ none
    → AreUnique (subs ++ sub ∷ [])
unfolding sf_of
append-AreUnique [] sub u new = (refl, tt)
append-AreUnique (s ∷ subs) sub (old, u) new = (
  ground (
    arith,
    old,
    new,
    append-sf_of s.client.id subs sub,
    str_eq_iff sub.client.id s.client.id,
    str_eq_iff s.client.id sub.client.id,
  ),
  append-AreUnique subs sub u (ground (arith, new)),
)

unsubscribe-AreUnique :
    (id : List ℕ) (subs : List Subscription) → AreUnique subs → AreUnique (unsubscribe id subs)
unfolding unsubscribe
unsubscribe-AreUnique id [] u = tt
unsubscribe-AreUnique id (sub ∷ subs) (new, u) = elim (Bool-cases (str_eq sub.client.id id)) [
  | inl same ↦ rw (same, AreUnique) u
  | inr other ↦
      rw (other, AreUnique)
        (
          ground (arith, new, unsubscribe-sf_of id subs sub.client.id u),
          unsubscribe-AreUnique id subs u,
        )
]

subscribe-AreUnique :
    (c : TcpClient) (sf : ℕ) (subs : List Subscription)
    → AreUnique subs
    → AreUnique (subscribe c sf subs)
unfolding subscribe
subscribe-AreUnique c sf subs u = elim (Option-cases (update_sf c.id sf subs)) [
  | inl e ↦
      rw (e, AreUnique)
        (append-AreUnique subs (record { client = c; sf = sf }) u (update_sf-none c.id sf subs e))
  | inr (subs', e) ↦ rw (e, AreUnique) (update_sf-AreUnique c.id sf subs subs' u e)
]

pub request-AreUnique :
    (c : TcpClient) (topic : List ℕ) (sf req_type : ℕ) (subs : List Subscription)
    → AreUnique subs
    → AreUnique (request c topic sf req_type subs)
unfolding request
request-AreUnique c topic sf req_type subs u = elim (Bool-cases (req_type == b'0')) [
  | inl on ↦ rw on (subscribe-AreUnique c sf subs u)
  | inr not_on ↦ rw not_on (elim (Bool-cases (req_type == b'1')) [
    | inl off ↦ rw off (unsubscribe-AreUnique c.id subs u)
    | inr not_off ↦ rw not_off u
  ])
]
