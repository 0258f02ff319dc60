-- ===== src/Link/Channel/Due.antt =====
-- What `link_scheduler` of laboratoare/lab-03/link_emulator/link.c sends in one turn.
use protocoale_de_comunicati.Common.{
  ℕ, ◌≤◌, ◌<◌, Bool-cases, ltb→lt, inl, inr, ◌≡◌, refl, List, [], ◌∷◌, ◌++◌, arith, ltb, ◌^◌,
}
use protocoale_de_comunicati.Link.Channel.{Msg, MsgInFlight, Config, Link, deliver, check, Reaches}
use protocoale_de_comunicati.Link.Channel.Timing.{
  finishes, IsSpaced, next_finish, IsSpaced-suffix, Reaches-IsSpaced,
}

-- Every time in the list satisfies the bound.
abbrev pub AllAtMost : ℕ → List ℕ → Type 0
AllAtMost crt [] = Unit {0}
AllAtMost crt (t ∷ ts) = (t ≤ crt) × AllAtMost crt ts

abbrev pub AllAfter : ℕ → List ℕ → Type 0
AllAfter crt [] = Unit {0}
AllAfter crt (t ∷ ts) = (crt < t) × AllAfter crt ts

IsSpaced-AllAfter :
    (d limit crt t : ℕ) (ts : List ℕ) → IsSpaced d limit (t ∷ ts) → crt < t → AllAfter crt (t ∷ ts)
IsSpaced-AllAfter d limit crt t [] v lt = (lt, tt)
IsSpaced-AllAfter d limit crt t (s ∷ ts) (le, v) lt =
    (lt, IsSpaced-AllAfter d limit crt s ts v (omega arith))

deliver-due :
    (d limit crt : ℕ) (fs : List MsgInFlight)
    → IsSpaced d limit (finishes fs)
    → AllAtMost crt (finishes (deliver crt fs).0) × AllAfter crt (finishes (deliver crt fs).1)
unfolding deliver
deliver-due d limit crt [] v = (tt, tt)
deliver-due d limit crt (f ∷ fs) v = elim (Bool-cases (ltb crt f.finish_time)) [
  | inl early ↦ rw early (
    tt,
    IsSpaced-AllAfter d limit crt f.finish_time (finishes fs) v (ltb→lt crt f.finish_time early),
  )
  | inr due ↦ let (out, stay) = deliver-due d limit crt fs v.1 in rw due ((ground arith, out), stay)
]

deliver-append : (crt : ℕ) (fs : List MsgInFlight) → (deliver crt fs).0 ++ (deliver crt fs).1 ≡ fs
unfolding deliver
deliver-append crt [] = refl
deliver-append crt (f ∷ fs) = elim (Bool-cases (ltb crt f.finish_time)) [
  | inl early ↦ rw early refl
  | inr due ↦ rw (due, deliver-append crt fs) refl
]

-- With delays below 2 ^ 31, in every state that the two threads reach, the turn of `link_scheduler`
-- at a time sends exactly the messages in flight whose time has come: what it sends and what stays are
-- together the messages that were in flight, in order, all that it sends are due, and none that stays
-- is.
pub check_due :
    (c : Config) (ins : List Msg) (outs : List MsgInFlight) (l : Link) (crt : ℕ)
    → c.serialization_delay < 2 ^ 31
    → c.delay < 2 ^ 31
    → Reaches c ins outs l
    → ((check l crt).0 ++ (check l crt).1.in_flight ≡ l.in_flight)
      × AllAtMost crt (finishes (check l crt).0)
      × AllAfter crt (finishes (check l crt).1.in_flight)
unfolding check
check_due c ins outs l crt slow far r =
    let (due, early) = deliver-due c.serialization_delay (next_finish c l) crt l.in_flight (
      IsSpaced-suffix c.serialization_delay (next_finish c l) (finishes outs) (finishes l.in_flight)
        (Reaches-IsSpaced c slow far ins outs l r)) in
    (deliver-append crt l.in_flight, due, early)
