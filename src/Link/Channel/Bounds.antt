-- ===== src/Link/Channel/Bounds.antt =====
-- The buffer of laboratoare/lab-03/link_emulator/link.c holds `BUFFER_SIZE` messages at most.
use protocoale_de_comunicati.Common.{
  ℕ, ◌≤◌, ◌<◌, ◌≡◌, refl, ap, subst, suc, Bool, true, false, Bool-cases, inl, inr, List, [], ◌∷◌,
  length, length-append, arith, leb, ltb, if◌then◌else◌, ok, ◌%◌, ◌&&◌, Whenever, Whenever-value,
  Whenever-bind, Whenever-all,
}
use protocoale_de_comunicati.Link.Channel.{
  Msg, MsgInFlight, Config, Forwarder, receiving, holding, Link, initial, Draws, corrupted, receive,
  decide, check, put_in_flight, fly, pause, rest, Step, receives, decides, checks, flies, rests,
  Reaches, starts, continues, buffer_max,
}

-- Where `run_forwarding` has read that there is no overflow, there is room for one message.
abbrev pub IsRoomFor : Forwarder → (size : ℕ) → Type 0
IsRoomFor receiving n = Unit
IsRoomFor (holding m true) n = Unit
IsRoomFor (holding m false) n = n < buffer_max

abbrev pub IsBounded : Link → Type 0
IsBounded l = (length l.buffer ≤ buffer_max) × IsRoomFor l.forwarder (length l.buffer)

smaller : (f : Forwarder) (n k : ℕ) → IsRoomFor f n → k ≤ n → IsRoomFor f k
smaller receiving n k r le = tt
smaller (holding m true) n k r le = tt
smaller (holding m false) n k r le = omega arith

receive-IsBounded : (l : Link) (m : Msg) → IsBounded l → IsBounded (receive l m)
unfolding receive
receive-IsBounded l m (le, r) = elim (Bool-cases (leb buffer_max (length l.buffer))) [
  | inl full ↦ rw full (le, tt)
  | inr room ↦ rw room (le, ground arith)
]

decide-IsBounded :
    (c : Config) (l : Link) (m : Msg) (overflow : Bool) (d : Draws)
    → IsRoomFor (holding m overflow) (length l.buffer)
    → length l.buffer ≤ buffer_max
    → Whenever (λ (ins, l'). IsBounded l') (decide c l m overflow d)
unfolding decide
decide-IsBounded c l m true d r le = (le, tt)
decide-IsBounded c l m false d r le = elim (Bool-cases (ltb (d.drop % 100) c.loss)) [
  | inl lost ↦ rw lost (le, tt)
  | inr kept ↦ rw kept (
      Whenever-bind (λ m'. Unit {0}) _
        (if ltb (d.flip % 100) c.corrupt then corrupted m d else ok m) _
        (Whenever-all _ _ (λ m'. tt))
        (λ m' u. (omega (arith, length-append l.buffer (m' ∷ [])), tt)))
]

put_in_flight-IsBounded :
    (c : Config) (l : Link) (crt : ℕ) (ms : List Msg)
    → l.buffer ≡ ms
    → IsBounded l
    → Whenever IsBounded (put_in_flight c l crt ms)
unfolding put_in_flight
put_in_flight-IsBounded c l crt [] e v = tt
put_in_flight-IsBounded c l crt (m ∷ ms) e (le, r) =
    let size : length l.buffer ≡ suc (length ms) = ap length e in
    (omega arith, smaller l.forwarder (length l.buffer) (length ms) r (omega arith))

fly-IsBounded :
    (c : Config) (l : Link) (crt : ℕ) (stuff : Bool)
    → IsBounded l
    → Whenever IsBounded (fly c l crt stuff)
unfolding fly
fly-IsBounded c l crt stuff v = elim (Bool-cases (stuff && leb l.idle_time crt)) [
  | inl go ↦ rw go (
      Whenever-bind IsBounded _ (put_in_flight c l crt l.buffer) _
        (put_in_flight-IsBounded c l crt l.buffer refl v) (λ l' e. e))
  | inr stay ↦ rw stay v
]

rest-IsBounded :
    (l : Link) (idle send : ℕ) → IsBounded l → Whenever (λ (p, l'). IsBounded l') (rest l idle send)
unfolding rest
rest-IsBounded l idle send v =
    Whenever-bind (λ p. Unit {0}) _ (pause (length l.buffer) idle send) _
      (Whenever-all _ _ (λ p. tt)) (λ p u. v)

Step-IsBounded :
    (c : Config) (l l' : Link) (ins : List Msg) (outs : List MsgInFlight)
    → Step c l ins outs l'
    → IsBounded l
    → IsBounded l'
unfolding check
Step-IsBounded c l l' ins outs (receives m at) v = receive-IsBounded l m v
Step-IsBounded c l l' ins outs (decides m overflow d _ _ at e) (le, r) =
    Whenever-value (λ (is, k). IsBounded k) _ _ e
      (decide-IsBounded c l m overflow d (subst (λ f. IsRoomFor f (length l.buffer)) at r) le)
Step-IsBounded c l l' ins outs (checks crt early at) v = v
Step-IsBounded c l l' ins outs (flies crt stuff _ at e) v =
    Whenever-value IsBounded _ _ e (fly-IsBounded c l crt stuff v)
Step-IsBounded c l l' ins outs (rests idle send p _ at e) v =
    Whenever-value (λ (q, k). IsBounded k) _ _ e (rest-IsBounded l idle send v)

Reaches-IsBounded :
    (c : Config) (ins : List Msg) (outs : List MsgInFlight) (l : Link)
    → Reaches c ins outs l
    → IsBounded l
unfolding initial
Reaches-IsBounded c ins outs l starts = (omega arith, tt)
Reaches-IsBounded c _ _ l' (continues ins is outs os l _ before step) =
    Step-IsBounded c l l' is os step (Reaches-IsBounded c ins outs l before)

-- In every state that the two threads reach, the buffer holds 1000 messages at most, although the
-- test for room and the enqueueing are two steps.
pub buffer_bounded :
    (c : Config) (ins : List Msg) (outs : List MsgInFlight) (l : Link)
    → Reaches c ins outs l
    → length l.buffer ≤ buffer_max
buffer_bounded c ins outs l r = (Reaches-IsBounded c ins outs l r).0
