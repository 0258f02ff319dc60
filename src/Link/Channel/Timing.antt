-- ===== src/Link/Channel/Timing.antt =====
-- When `link_scheduler` of laboratoare/lab-03/link_emulator/link.c lets messages go.
use protocoale_de_comunicati.Common.{
  ℕ, ◌+◌, ◌≤◌, ◌<◌, ◌≡◌, refl, sym, ap, subst, Bool, ◌||◌, Bool-cases, inl, inr, List, [], ◌∷◌,
  ◌++◌, map, length, arith, leb, ltb, if◌then◌else◌, ok, ◌%◌, ◌&&◌, Whenever, Whenever-value,
  Whenever-bind, Whenever-all, ◌^◌,
}
use mathlib.Core.List.{append_assoc, append-nil}
use protocoale_de_comunicati.Link.Channel.{
  Msg, MsgInFlight, Config, Scheduler, at_top, checked, waiting, Link, initial, Draws, corrupted,
  receive, decide, deliver, check, put_in_flight, fly, pause, rest, Step, receives, decides, checks,
  flies, rests, Reaches, starts, continues,
}

abbrev pub finishes : List MsgInFlight → List ℕ
finishes fs = map (λ (f : MsgInFlight). f.finish_time) fs

abbrev pub first_or : ℕ → List ℕ → ℕ
first_or limit [] = limit
first_or limit (t ∷ ts) = t

-- Each time is `d` or more before the next one, and the last one `d` or more before `limit`.
abbrev pub IsSpaced : (d limit : ℕ) → List ℕ → Type 0
IsSpaced d limit [] = Unit {0}
IsSpaced d limit (t ∷ ts) = (t + d ≤ first_or limit ts) × IsSpaced d limit ts

IsSpaced-snoc :
    (d limit t : ℕ) (ts : List ℕ)
    → IsSpaced d limit ts
    → limit ≤ t
    → IsSpaced d (t + d) (ts ++ (t ∷ []))
IsSpaced-snoc d limit t [] v le = (omega arith, tt)
IsSpaced-snoc d limit t (a ∷ []) (v, u) le = (omega arith, (omega arith, tt))
IsSpaced-snoc d limit t (a ∷ b ∷ ts) (v, u) le = (v, IsSpaced-snoc d limit t (b ∷ ts) u le)

pub IsSpaced-suffix :
    (d limit : ℕ) (ss ts : List ℕ) → IsSpaced d limit (ss ++ ts) → IsSpaced d limit ts
IsSpaced-suffix d limit [] ts v = v
IsSpaced-suffix d limit (s ∷ ss) ts (v, u) = IsSpaced-suffix d limit ss ts u

IsSpaced-prefix :
    (d limit : ℕ) (ss ts : List ℕ) → IsSpaced d limit (ss ++ ts) → IsSpaced d (first_or limit ts) ss
IsSpaced-prefix d limit [] ts v = tt
IsSpaced-prefix d limit (s ∷ []) ts (v, u) = (v, tt)
IsSpaced-prefix d limit (s ∷ t ∷ ss) ts (v, u) = (v, IsSpaced-prefix d limit (t ∷ ss) ts u)

-- When the next message taken out of the buffer will be sent at the earliest.
abbrev pub next_finish : Config → Link → ℕ
next_finish c l = l.idle_time + c.serialization_delay + c.delay

abbrev pub IsEarly : Scheduler → Type 0
IsEarly at_top = Unit
IsEarly (checked crt stuff) = crt < 2 ^ 62
IsEarly (waiting idle send) = Unit

abbrev pub IsOnTime : Config → List ℕ → Link → Type 0
IsOnTime c sent l =
    IsSpaced c.serialization_delay (next_finish c l) (sent ++ finishes l.in_flight)
    × IsEarly l.scheduler

finishes-append : (fs gs : List MsgInFlight) → finishes (fs ++ gs) ≡ finishes fs ++ finishes gs
finishes-append [] gs = refl
finishes-append (f ∷ fs) gs = ap (λ ms. f.finish_time ∷ ms) (finishes-append fs gs)

deliver-finishes :
    (crt : ℕ) (fs : List MsgInFlight)
    → finishes (deliver crt fs).0 ++ finishes (deliver crt fs).1 ≡ finishes fs
unfolding deliver
deliver-finishes crt [] = refl
deliver-finishes crt (f ∷ fs) = elim (Bool-cases (ltb crt f.finish_time)) [
  | inl early ↦ rw early refl
  | inr due ↦ rw due (ap (λ ms. f.finish_time ∷ ms) (deliver-finishes crt fs))
]

module _ (c : Config) (slow : c.serialization_delay < 2 ^ 31) (far : c.delay < 2 ^ 31)
    (sent : List ℕ) where
  decide-IsOnTime :
      (l : Link) (m : Msg) (overflow : Bool) (d : Draws)
      → IsOnTime c sent l
      → Whenever (λ (ins, l'). IsOnTime c sent l') (decide c l m overflow d)
  unfolding decide
  decide-IsOnTime l m overflow d v = elim (Bool-cases (overflow || ltb (d.drop % 100) c.loss)) [
    | inl lost ↦ rw lost v
    | inr kept ↦ rw kept (
        Whenever-bind (λ m'. Unit {0}) _
          (if ltb (d.flip % 100) c.corrupt then corrupted m d else ok m) _
          (Whenever-all _ _ (λ m'. tt)) (λ m' u. v))
  ]

  put_in_flight-IsOnTime :
      (l : Link) (crt : ℕ) (ms : List Msg)
      → crt < 2 ^ 62
      → l.idle_time ≤ crt
      → IsSpaced c.serialization_delay (next_finish c l) (sent ++ finishes l.in_flight)
      → Whenever
          (λ l'. IsSpaced c.serialization_delay (next_finish c l') (sent ++ finishes l'.in_flight))
          (put_in_flight c l crt ms)
  unfolding put_in_flight
  put_in_flight-IsOnTime l crt [] early free v = tt
  put_in_flight-IsOnTime l crt (m ∷ ms) early free v =
      let finish : ℕ = crt + c.serialization_delay + c.delay in
      let small : finish % 2 ^ 64 ≡ finish = omega arith in
      let next : crt + c.serialization_delay + c.serialization_delay + c.delay
          ≡ finish + c.serialization_delay =
        omega arith in
      let grown : sent ++ (finishes l.in_flight ++ (finish ∷ []))
          ≡ (sent ++ finishes l.in_flight) ++ (finish ∷ []) =
        sym (append_assoc sent (finishes l.in_flight) (finish ∷ [])) in
      rw (finishes-append l.in_flight, small, next, grown)
        (IsSpaced-snoc c.serialization_delay (next_finish c l) finish (sent ++ finishes l.in_flight)
          v (omega arith))

  fly-IsOnTime :
      (l : Link) (crt : ℕ) (stuff : Bool)
      → l.scheduler ≡ checked crt stuff
      → IsOnTime c sent l
      → Whenever (IsOnTime c sent) (fly c l crt stuff)
  unfolding fly
  fly-IsOnTime l crt stuff at (v, early) = elim (Bool-cases (stuff && leb l.idle_time crt)) [
    | inl go ↦ rw go (
        Whenever-bind _ _ (put_in_flight c l crt l.buffer) _
          (put_in_flight-IsOnTime l crt l.buffer (subst IsEarly at early) (ground arith) v)
          (λ l' w. (w, tt)))
    | inr stay ↦ rw stay (v, tt)
  ]

  rest-IsOnTime :
      (l : Link) (idle send : ℕ)
      → IsOnTime c sent l
      → Whenever (λ (p, l'). IsOnTime c sent l') (rest l idle send)
  unfolding rest
  rest-IsOnTime l idle send (v, early) =
      Whenever-bind (λ p. Unit {0}) _ (pause (length l.buffer) idle send) _
        (Whenever-all _ _ (λ p. tt)) (λ p u. (v, tt))

module _ (c : Config) (slow : c.serialization_delay < 2 ^ 31) (far : c.delay < 2 ^ 31) where
  unsent : (sent : List ℕ) (l : Link) → IsOnTime c sent l → IsOnTime c (sent ++ []) l
  unsent sent l v = rw (append-nil sent) v

  Step-IsOnTime :
      (sent : List ℕ) (l l' : Link) (ins : List Msg) (outs : List MsgInFlight)
      → Step c l ins outs l'
      → IsOnTime c sent l
      → IsOnTime c (sent ++ finishes outs) l'
  unfolding receive check
  Step-IsOnTime sent l l' ins outs (receives m at) v = unsent sent (receive l m) v
  Step-IsOnTime sent l l' ins outs (decides m overflow d _ _ at e) v = unsent sent l' (
      Whenever-value (λ (is, k). IsOnTime c sent k) _ _ e
        (decide-IsOnTime c slow far sent l m overflow d v))
  Step-IsOnTime sent l l' ins outs (checks crt early at) (v, w) = (
    rw
        (
          append_assoc sent (finishes (deliver crt l.in_flight).0)
              (finishes (deliver crt l.in_flight).1),
          deliver-finishes crt l.in_flight,
        )
        v,
    early,
  )
  Step-IsOnTime sent l l' ins outs (flies crt stuff _ at e) v =
      unsent sent l'
        (Whenever-value (IsOnTime c sent) _ _ e (fly-IsOnTime c slow far sent l crt stuff at v))
  Step-IsOnTime sent l l' ins outs (rests idle send p _ at e) v = unsent sent l' (
      Whenever-value (λ (q, k). IsOnTime c sent k) _ _ e
        (rest-IsOnTime c slow far sent l idle send v))

  Reaches-IsOnTime :
      (ins : List Msg) (outs : List MsgInFlight) (l : Link)
      → Reaches c ins outs l
      → IsOnTime c (finishes outs) l
  unfolding initial
  Reaches-IsOnTime ins outs l starts = (tt, tt)
  Reaches-IsOnTime _ _ l' (continues ins is outs os l _ before step) =
      rw (finishes-append outs os)
        (Step-IsOnTime (finishes outs) l l' is os step (Reaches-IsOnTime ins outs l before))

  -- With delays below 2 ^ 31, the link never carries messages faster than its speed: the times set
  -- for the messages sent and in flight, in the order of sending, are `serialization_delay` or more
  -- apart, in every state that the two threads reach.
  pub Reaches-IsSpaced :
      (ins : List Msg) (outs : List MsgInFlight) (l : Link)
      → Reaches c ins outs l
      → IsSpaced c.serialization_delay (next_finish c l) (finishes outs ++ finishes l.in_flight)
  Reaches-IsSpaced ins outs l r = (Reaches-IsOnTime ins outs l r).0
