-- ===== src/Link/Channel/Waits.antt =====
-- How `link_scheduler` of laboratoare/lab-03/link_emulator/link.c pauses.
use protocoale_de_comunicati.Common.{
  ℕ, ◌+◌, ◌≤◌, ◌<◌, ◌≡◌, refl, suc, true, false, ◌||◌, Bool-cases, inl, inr, lt→ltb, Returns, ◌-◌,
  List, [], ◌∷◌, length, arith, leb, ltb, ◌==◌, ok, exited,
}
use protocoale_de_comunicati.Link.Channel.{
  Msg, MsgInFlight, Config, at_top, Link, deliver, check, turn, usleep, oldest_finish,
  put_in_flight, fly, pause, rest,
}

turn_on-Returns :
    (c : Config) (l : Link) (crt : ℕ) (ms : List Msg)
    → l.buffer ≡ ms
    → 0 < c.serialization_delay
    → Returns (λ (out, p, l'). l'.scheduler ≡ at_top) (turn c l crt [])
unfolding turn check fly put_in_flight rest pause
turn_on-Returns c l crt [] e slow =
    let send = oldest_finish (deliver crt l.in_flight).1 - crt in
    elim (Bool-cases (ltb 0 (l.idle_time - crt) || ltb 0 send)) [
      | inl busy ↦ rw (e, busy) refl
      | inr free ↦ rw (e, free) refl
    ]
turn_on-Returns c l crt (m ∷ ms) e slow =
    let stuff : ltb 0 (suc (length ms)) ≡ true = ground arith in
    elim (Bool-cases (leb l.idle_time crt)) [
      | inl free ↦
          let busy : ltb 0 (crt + c.serialization_delay - crt) ≡ true = ground arith in
          rw (e, stuff, free, busy) refl
      | inr late ↦
          let busy : ltb 0 (l.idle_time - crt) ≡ true = ground arith in
          rw (e, stuff, late, busy) refl
    ]

-- While nothing arrives during the turn and the serialization delay is not 0, a turn of the loop ends
-- in a pause: neither assertion fails.
turn-Returns :
    (c : Config) (l : Link) (crt : ℕ)
    → 0 < c.serialization_delay
    → Returns (λ (out, p, l'). l'.scheduler ≡ at_top) (turn c l crt [])
unfolding turn check fly rest
turn-Returns c l crt slow = turn_on-Returns c l crt l.buffer refl slow

-- A message that arrives while the link is idle, after `stuff` has been read and before the lock is
-- taken again, makes the assertion fail: the program ends.
pub turn_aborts :
    (c : Config) (l : Link) (crt : ℕ) (m : Msg) (later : List Msg)
    → l.buffer ≡ []
    → l.in_flight ≡ []
    → l.idle_time ≤ crt
    → turn c l crt (m ∷ later) ≡ exited
unfolding turn check fly rest pause deliver
turn_aborts c l crt m later empty idle free =
    let none_left : l.idle_time - crt ≡ 0 = omega arith in
    let no_wait : 0 - crt ≡ 0 = omega arith in
    let full : (suc (length later) == 0) ≡ false = ground arith in
    rw (empty, idle, none_left, no_wait, full) refl

-- While only messages in flight are left and the oldest is not due, the thread does not sleep until
-- it is: it pauses for 0 microseconds and turns without a change.
turn_spins :
    (c : Config) (l : Link) (crt : ℕ) (f : MsgInFlight) (fs : List MsgInFlight)
    → l.buffer ≡ []
    → l.in_flight ≡ f ∷ fs
    → l.scheduler ≡ at_top
    → l.idle_time ≤ crt
    → crt < f.finish_time
    → turn c l crt [] ≡ ok ([], usleep 0, l)
unfolding turn check fly rest pause deliver
turn_spins c l crt f fs empty flying top free early =
    let none_left : l.idle_time - crt ≡ 0 = omega arith in
    let stays : ltb crt f.finish_time ≡ true = lt→ltb crt f.finish_time early in
    let busy : ltb 0 (f.finish_time - crt) ≡ true = ground arith in
    let longer : ltb (f.finish_time - crt) 0 ≡ false = ground arith in
    rw (empty, flying, stays, none_left, busy, longer, top) refl
