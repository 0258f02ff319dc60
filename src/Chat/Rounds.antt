-- ===== src/Chat/Rounds.antt =====
-- What a round of the server of laboratoare/lab-08/server.c does.
use protocoale_de_comunicati.Common.{
  ℕ, zero, suc, ◌+◌, ◌≤◌, ◌<◌, ◌≡◌, refl, subst, ◌∙◌, true, false, Bool-cases, Option-cases, inl,
  inr, arith, Option, none, some, List, [], ◌∷◌, length, ltb, lt→ltb, ◌==◌, if◌then◌else◌, ok,
  exited, Whenever, Whenever-bind,
}
use mathlib.Core.Bool.{false≢true}
use protocoale_de_comunicati.Chat.{
  Server, Round, buflen, has_nul, dest, accept_client, serve_client, scan, round,
}

-- The listening socket is in the set, and no descriptor of the set is above `fdmax`.
pub record IsServer (s : Server) : Type 0 where
  pub listens : s.read_fds s.sockfd ≡ true
  pub bounded : (j : ℕ) → s.read_fds j ≡ true → j ≤ s.fdmax

module _ (r : Round) (s : Server) (v : IsServer s) where
  accept_client-IsServer : Whenever (λ (s', sent). IsServer s') (accept_client r s)
  unfolding accept_client
  accept_client-IsServer = elim (Option-cases r.accepted) [
    | inl e ↦ rw e tt
    | inr (fd, e) ↦ rw e (record { listens = ground (arith, v.listens); bounded = newer fd })
  ]
    where
      newer :
          (fd j : ℕ)
          → (if j == fd then true else s.read_fds j) ≡ true
          → j ≤ (if ltb s.fdmax fd then fd else s.fdmax)
      newer fd j m = elim (Bool-cases (j == fd)) [
        | inl here ↦ ground (arith, here)
        | inr there ↦
            let old : j ≤ s.fdmax =
              v.bounded j (subst (λ b. (if b then true else s.read_fds j) ≡ true) there m) in
            ground (arith, old)
      ]

  serve_client-IsServer :
      (i : ℕ) (got : Option (List ℕ))
      → (i == s.sockfd) ≡ false
      → Whenever (λ (s', sent). IsServer s') (serve_client r i s got)
  unfolding serve_client
  serve_client-IsServer i none client = tt
  serve_client-IsServer i (some []) client = record {
    listens = let other : (s.sockfd == i) ≡ false = ground arith in rw other v.listens;
    bounded = λ j m. elim (Bool-cases (j == i)) [
      | inl gone ↦
          absurd (false≢true (subst (λ b. (if b then false else s.read_fds j) ≡ true) gone m))
      | inr there ↦ v.bounded j (subst (λ b. (if b then false else s.read_fds j) ≡ true) there m)
    ];
  }
  serve_client-IsServer i (some (c ∷ cs)) client =
      elim (Bool-cases (ltb (length (c ∷ cs)) buflen)) [
        | inl ends ↦ rw ends sent
        | inr full ↦ elim (Bool-cases (has_nul cs)) [
          | inl nul ↦ rw (full, nul) sent
          | inr open_end ↦ rw (full, open_end) tt
        ]
      ]
    where
      sent :
          Whenever {A = Server × List (ℕ × List ℕ)}
            (λ (s', sent). IsServer s')
            (if r.send_fails (dest c) then exited else ok (s, (dest c, c ∷ cs) ∷ []))
      sent = elim (Bool-cases (r.send_fails (dest c))) [
        | inl fails ↦ rw fails tt
        | inr works ↦ rw works v
      ]

scan-IsServer :
    (r : Round) (left i : ℕ) (s : Server)
    → IsServer s
    → Whenever (λ (s', sent). IsServer s') (scan r left i s)
unfolding scan
scan-IsServer r zero i s v = v
scan-IsServer r (suc left) i s v =
    Whenever-bind (λ (s', sent). IsServer s') _
      (if r.tmp_fds i
        then (if i == s.sockfd then accept_client r s else serve_client r i s (r.received i))
        else ok (s, []))
      _
      (elim (Bool-cases (r.tmp_fds i)) [
        | inr quiet ↦ rw quiet v
        | inl ready ↦ rw ready (elim (Bool-cases (i == s.sockfd)) [
          | inl listening ↦ rw listening (accept_client-IsServer r s v)
          | inr client ↦ rw client (serve_client-IsServer r s v i (r.received i) client)
        ])
      ])
      (λ (s', sent) v'.
        Whenever-bind (λ (s'', later). IsServer s'') _ (scan r left (i + 1) s') _
          (scan-IsServer r left (i + 1) s' v') (λ (s'', later) v''. v''))

-- Whatever the calls return, after a round that does not end the program the listening socket is
-- still in the set, and no descriptor of the set is above `fdmax`, up to which the next round looks.
pub round-IsServer :
    (r : Round) (s : Server) → IsServer s → Whenever (λ (s', sent). IsServer s') (round r s)
unfolding round
round-IsServer r s v = scan-IsServer r (s.fdmax + 1) 0 s v

quiet-scan :
    (r : Round) (left i : ℕ) (s : Server)
    → ((j : ℕ) → i ≤ j → r.tmp_fds j ≡ false)
    → scan r left i s ≡ ok (s, [])
unfolding scan
quiet-scan r zero i s quiet = refl
quiet-scan r (suc left) i s quiet =
    rw (quiet i (omega arith), quiet-scan r left (i + 1) s (λ j le. quiet j (omega arith))) refl

only-scan :
    (r : Round) (left i c : ℕ) (cs : List ℕ) (s : Server)
    → (i == s.sockfd) ≡ false
    → ((j : ℕ) → r.tmp_fds j ≡ (j == i))
    → r.received i ≡ some (c ∷ cs)
    → ltb (length (c ∷ cs)) buflen ≡ true
    → scan r (suc left) i s
      ≡ (if r.send_fails (dest c) then exited else ok (s, (dest c, c ∷ cs) ∷ []))
unfolding scan serve_client
only-scan r left i c cs s client only got ends = elim (Bool-cases (r.send_fails (dest c))) [
  | inl fails ↦ rw (ready, client, got, ends, fails) refl
  | inr works ↦ rw (ready, client, got, ends, works, rest) refl
]
  where
    ready : r.tmp_fds i ≡ true
    ready = only i ∙ ground arith

    rest : scan r left (i + 1) s ≡ ok (s, [])
    rest = quiet-scan r left (i + 1) s (λ j le. only j ∙ ground arith)

one-scan :
    (r : Round) (left i at c : ℕ) (cs : List ℕ) (s : Server)
    → (at == s.sockfd) ≡ false
    → ((j : ℕ) → r.tmp_fds j ≡ (j == at))
    → r.received at ≡ some (c ∷ cs)
    → ltb (length (c ∷ cs)) buflen ≡ true
    → i ≤ at
    → at < i + left
    → scan r left i s ≡ (if r.send_fails (dest c) then exited else ok (s, (dest c, c ∷ cs) ∷ []))
unfolding scan
one-scan r zero i at c cs s client only got ends le lt = absurd (omega arith)
one-scan r (suc left) i at c cs s client only got ends le lt = elim (Bool-cases (i == at)) [
  | inl here ↦
      let same : at ≡ i = ground (arith, here) in
      only-scan r left i c cs s (subst (λ k. (k == s.sockfd) ≡ false) same client)
        (subst (λ k. (j : ℕ) → r.tmp_fds j ≡ (j == k)) same only)
        (subst (λ k. r.received k ≡ some (c ∷ cs)) same got) ends
  | inr later ↦
      let rest =
        one-scan r left (i + 1) at c cs s client only got ends (ground (arith, later))
          (omega arith) in
      rw (only i, later, rest)
        (elim (Bool-cases (r.send_fails (dest c))) [
          | inl fails ↦ rw fails refl
          | inr works ↦ rw works refl
        ])
]

-- A digit names the descriptor that it stands for.
dest-digit : (d : ℕ) → d < 10 → dest (b'0' + d) ≡ d
unfolding dest
dest-digit d lt = ground arith

-- When one client's descriptor is all that is ready and it brings a text of fewer than 256 bytes that
-- begins with a digit, the round sends that text to the descriptor that the digit stands for, and
-- nothing else, and the server stays as it is; but when that `send` fails, the program ends.
pub round_relays :
    (r : Round) (at d : ℕ) (cs : List ℕ) (s : Server)
    → at ≤ s.fdmax
    → (at == s.sockfd) ≡ false
    → ((j : ℕ) → r.tmp_fds j ≡ (j == at))
    → d < 10
    → length cs + 1 < 256
    → r.received at ≡ some ((b'0' + d) ∷ cs)
    → round r s ≡ (if r.send_fails d then exited else ok (s, (d, (b'0' + d) ∷ cs) ∷ []))
unfolding round
round_relays r at d cs s le client only digit short got =
    let ends : ltb (length ((b'0' + d) ∷ cs)) buflen ≡ true = lt→ltb _ _ (omega arith) in
    subst (λ n. round r s ≡ (if r.send_fails n then exited else ok (s, (n, (b'0' + d) ∷ cs) ∷ [])))
      (dest-digit d digit)
      (one-scan r (s.fdmax + 1) 0 at (b'0' + d) cs s client only got ends (omega arith)
        (omega arith))
