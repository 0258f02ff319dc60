-- ===== src/Link/Channel/Order.antt =====
-- What the threads of laboratoare/lab-03/link_emulator/link.c keep: the messages in order, and the
-- bound of the buffer.
use protocoale_de_comunicati.Common.{
  ℕ, ◌≡◌, refl, sym, ap, ◌∙◌, Bool, ◌||◌, Bool-cases, inl, inr, List, [], ◌∷◌, ◌++◌, map, length,
  leb, ltb, if◌then◌else◌, ok, ◌%◌, ◌&&◌, Whenever, Whenever-value, Whenever-bind, Whenever-all,
}
use mathlib.Core.List.{append_assoc, append-nil}
use protocoale_de_comunicati.Link.Channel.{
  Msg, MsgInFlight, Config, Link, initial, Draws, corrupted, receive, decide, deliver, check,
  put_in_flight, fly, pause, rest, Step, receives, decides, checks, flies, rests, Reaches, starts,
  continues,
}

abbrev pub messages : List MsgInFlight → List Msg
messages fs = map (λ (f : MsgInFlight). f.m) fs

-- All that the link holds, the message to go out first in front.
abbrev pub held : Link → List Msg
held l = messages l.in_flight ++ l.buffer

messages-append : (fs gs : List MsgInFlight) → messages (fs ++ gs) ≡ messages fs ++ messages gs
messages-append [] gs = refl
messages-append (f ∷ fs) gs = ap (λ ms. f.m ∷ ms) (messages-append fs gs)

deliver-messages :
    (crt : ℕ) (fs : List MsgInFlight)
    → messages (deliver crt fs).0 ++ messages (deliver crt fs).1 ≡ messages fs
unfolding deliver
deliver-messages crt [] = refl
deliver-messages crt (f ∷ fs) = elim (Bool-cases (ltb crt f.finish_time)) [
  | inl early ↦ rw early refl
  | inr due ↦ rw due (ap (λ ms. f.m ∷ ms) (deliver-messages crt fs))
]

decide-held :
    (c : Config) (l : Link) (m : Msg) (overflow : Bool) (d : Draws)
    → Whenever (λ (ins, l'). held l' ≡ held l ++ ins) (decide c l m overflow d)
unfolding decide
decide-held c l m overflow d = elim (Bool-cases (overflow || ltb (d.drop % 100) c.loss)) [
  | inl lost ↦ rw lost (sym (append-nil (held l)))
  | inr kept ↦ rw kept (
      Whenever-bind (λ m'. Unit {0}) _
        (if ltb (d.flip % 100) c.corrupt then corrupted m d else ok m) _
        (Whenever-all _ _ (λ m'. tt))
        (λ m' u. sym (append_assoc (messages l.in_flight) l.buffer (m' ∷ []))))
]

put_in_flight-held :
    (c : Config) (l : Link) (crt : ℕ) (ms : List Msg)
    → l.buffer ≡ ms
    → Whenever (λ l'. held l' ≡ held l) (put_in_flight c l crt ms)
unfolding put_in_flight
put_in_flight-held c l crt [] e = tt
put_in_flight-held c l crt (m ∷ ms) e =
    rw (e, messages-append l.in_flight) (append_assoc (messages l.in_flight) (m ∷ []) ms)

fly-held :
    (c : Config) (l : Link) (crt : ℕ) (stuff : Bool)
    → Whenever (λ l'. held l' ≡ held l) (fly c l crt stuff)
unfolding fly
fly-held c l crt stuff = elim (Bool-cases (stuff && leb l.idle_time crt)) [
  | inl go ↦ rw go (
      Whenever-bind (λ l'. held l' ≡ held l) _ (put_in_flight c l crt l.buffer) _
        (put_in_flight-held c l crt l.buffer refl) (λ l' e. e))
  | inr stay ↦ rw stay refl
]

rest-held : (l : Link) (idle send : ℕ) → Whenever (λ (p, l'). held l' ≡ held l) (rest l idle send)
unfolding rest
rest-held l idle send =
    Whenever-bind (λ p. Unit {0}) _ (pause (length l.buffer) idle send) _
      (Whenever-all _ _ (λ p. tt)) (λ p u. refl)

-- A step sends from the front of what the link holds and enqueues at the back.
Step-held :
    (c : Config) (l l' : Link) (ins : List Msg) (outs : List MsgInFlight)
    → Step c l ins outs l'
    → messages outs ++ held l' ≡ held l ++ ins
unfolding receive check
Step-held c l l' ins outs (receives m at) = sym (append-nil (held l))
Step-held c l l' ins outs (decides m overflow d _ _ at e) =
    Whenever-value (λ (is, k). held k ≡ held l ++ is) _ _ e (decide-held c l m overflow d)
Step-held c l l' ins outs (checks crt early at) =
    sym (append_assoc _ _ l.buffer)
    ∙ ap (λ ms. ms ++ l.buffer) (deliver-messages crt l.in_flight)
    ∙ sym (append-nil (held l))
Step-held c l l' ins outs (flies crt stuff _ at e) =
    Whenever-value (λ k. held k ≡ held l) _ _ e (fly-held c l crt stuff) ∙ sym (append-nil (held l))
Step-held c l l' ins outs (rests idle send p _ at e) =
    Whenever-value (λ (q, k). held k ≡ held l) _ _ e (rest-held l idle send)
    ∙ sym (append-nil (held l))

-- In every state that the two threads reach, however their steps interleave, the messages sent, those
-- in flight and those in the buffer, in this order, are the messages enqueued: none is lost, doubled
-- or overtaken.
pub Reaches-order :
    (c : Config) (ins : List Msg) (outs : List MsgInFlight) (l : Link)
    → Reaches c ins outs l
    → messages outs ++ (messages l.in_flight ++ l.buffer) ≡ ins
unfolding initial
Reaches-order c ins outs l starts = refl
Reaches-order c _ _ l' (continues ins is outs os l _ before step) =
    ap (λ ms. ms ++ held l') (messages-append outs os)
    ∙ append_assoc (messages outs) (messages os) (held l')
    ∙ ap (λ ms. messages outs ++ ms) (Step-held c l l' is os step)
    ∙ sym (append_assoc (messages outs) (held l) is)
    ∙ ap (λ ms. ms ++ is) (Reaches-order c ins outs l before)
