-- ===== src/Broker/Store.antt =====
-- What a message published in the server of tema2 adds to the list that is stored for a client.
use mathlib.Core.List.{append-nil}
use protocoale_de_comunicati.Common.{
  ℕ, zero, suc, ◌<◌, ◌≡◌, refl, sym, ap, subst, ◌∙◌, Bool, false, Bool-cases, Option-cases, inl,
  inr, arith, Option, none, some, List, [], ◌∷◌, ◌++◌, ◌==◌, if◌then◌else◌, ok, length,
}
use protocoale_de_comunicati.Common.Maps.{UnorderedMap, str_eq, str_eq_iff, string_key, nat_key}
use protocoale_de_comunicati.Broker.Subscriptions.{sf_of, AreUnique}
use protocoale_de_comunicati.Broker.{
  Subscription, SubMessage, Server, Stored, store, send_to_subscribers, send_to_all, publish,
  c_string, sf_on,
}

abbrev pub stored_for : List ℕ → Stored → List SubMessage
stored_for id stored = elim (stored id) [ none ↦ [] | some ms ↦ ms ]

-- Whether a message is to be stored for a client with this `sf`.
abbrev pub is_on : Option ℕ → Bool
is_on none = false
is_on (some sf) = sf == sf_on

module _ (id : List ℕ) (m : SubMessage) (active : UnorderedMap (List ℕ) ℕ)
    (off : active id ≡ none) where
  send_to_subscribers-stored_for :
      (sub : Subscription) (stored : Stored)
      → stored_for id (send_to_subscribers sub m active stored).0
        ≡ stored_for id stored
          ++ (if str_eq sub.client.id id then (if sub.sf == sf_on then m ∷ [] else []) else [])
  unfolding send_to_subscribers store
  send_to_subscribers-stored_for sub stored = elim (Option-cases (stored sub.client.id)) [
    | inl e ↦ ground (
      arith,
      e,
      off,
      str_eq_iff sub.client.id id,
      str_eq_iff id sub.client.id,
      append-nil (stored_for id stored),
    )
    | inr (ms, e) ↦ ground (
      arith,
      e,
      off,
      str_eq_iff sub.client.id id,
      str_eq_iff id sub.client.id,
      append-nil (stored_for id stored),
    )
  ]

  send_to_all-stored_for :
      (subs : List Subscription) (stored : Stored)
      → AreUnique subs
      → stored_for id (send_to_all subs m active stored).0
        ≡ stored_for id stored ++ (if is_on (sf_of id subs) then m ∷ [] else [])
  unfolding send_to_all sf_of
  send_to_all-stored_for [] stored u = sym (append-nil (stored_for id stored))
  send_to_all-stored_for (sub ∷ subs) stored (new, u) =
      let rest = send_to_all-stored_for subs (send_to_subscribers sub m active stored).0 u in
      let first = send_to_subscribers-stored_for sub stored in
      let old = stored_for id stored in
      rest
      ∙ ap (λ l. l ++ (if is_on (sf_of id subs) then m ∷ [] else [])) first
      ∙ elim (Bool-cases (str_eq sub.client.id id)) [
        | inl same ↦
            let id_is : sub.client.id ≡ id = (str_eq_iff sub.client.id id).0 same in
            let none_later : sf_of id subs ≡ none = rw (← id_is) new in
            rw (same, none_later) (append-nil (old ++ (if sub.sf == sf_on then m ∷ [] else [])))
        | inr other ↦
            rw other
              (ap (λ l. l ++ (if is_on (sf_of id subs) then m ∷ [] else [])) (append-nil old))
      ]

-- The bytes before the first 0.
abbrev pub until_nul : List ℕ → List ℕ
until_nul [] = []
until_nul (zero ∷ bytes) = []
until_nul (suc c ∷ bytes) = suc c ∷ until_nul bytes

pub c_string-until_nul :
    (room : ℕ) (bytes : List ℕ) → length bytes < room → c_string room bytes ≡ ok (until_nul bytes)
unfolding c_string
c_string-until_nul zero bytes lt = absurd (omega arith)
c_string-until_nul (suc room) [] lt = refl
c_string-until_nul (suc room) (zero ∷ bytes) lt = refl
c_string-until_nul (suc room) (suc c ∷ bytes) lt =
    rw (c_string-until_nul room bytes (omega arith)) refl

-- Whether a client is subscribed to a topic with `sf` on.
abbrev pub wants : (id topic : List ℕ) → Server → Bool
wants id topic s = elim (s.topics_subs topic) [ none ↦ false | some subs ↦ is_on (sf_of id subs) ]

abbrev pub AreOnce : Server → Type 0
AreOnce s =
    (topic : List ℕ) (subs : List Subscription) → s.topics_subs topic ≡ some subs → AreUnique subs

-- What a message that is published while the client is away changes of what concerns the client.
pub record IsPublished (id topic : List ℕ) (m : SubMessage) (s s' : Server) : Type 0 where
  pub active : s'.active_ids_sockets ≡ s.active_ids_sockets
  pub all : s'.all_clients ≡ s.all_clients
  pub once : AreOnce s'
  pub wanted : (t : List ℕ) → wants id t s' ≡ wants id t s
  pub stored :
      stored_for id s'.store_and_forward
      ≡ stored_for id s.store_and_forward ++ (if wants id topic s then m ∷ [] else [])

pub publish-IsPublished :
    (id topic : List ℕ) (m : SubMessage) (s : Server)
    → s.active_ids_sockets id ≡ none
    → AreOnce s
    → IsPublished id topic m s (publish topic m s).0
unfolding publish sf_of
publish-IsPublished id topic m s off once = elim (Option-cases (s.topics_subs topic)) [
  | inl e ↦
      rw (e, publish)
        (record {
          active = refl;
          all = refl;
          once = λ t subs f. elim (Bool-cases (str_eq t topic)) [
            | inl same ↦ let g : [] ≡ subs = ground (arith, e, f, same) in subst AreUnique g tt
            | inr other ↦ once t subs (ground (arith, f, other))
          ];
          wanted = λ t. ground (arith, e, str_eq_iff t topic);
          stored = rw (e, wants) (sym (append-nil (stored_for id s.store_and_forward)));
        })
  | inr (subs, e) ↦
      rw (e, publish)
        (record {
          active = refl;
          all = refl;
          once = once;
          wanted = λ t. refl;
          stored =
              rw (e, wants)
                (send_to_all-stored_for id m s.active_ids_sockets off subs s.store_and_forward
                  (once topic subs e));
        })
]
