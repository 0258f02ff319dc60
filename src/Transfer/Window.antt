-- ===== src/Transfer/Window.antt =====
-- A transfer of laboratoare/lab-03, the sender of send.c with the answers of recv.c.
use protocoale_de_comunicati.Common.{
  ℕ, zero, suc, ◌+◌, ◌-◌, ◌<◌, ◌%◌, ◌^◌, ◌≡◌, refl, sym, ap, Bool, false, inl, inr, Bool-cases,
  arith, Memory, Option, some, List, [], ◌∷◌, ◌++◌, length, if◌then◌else◌,
}
use mathlib.Core.List.{append-nil}
use protocoale_de_comunicati.Link.Channel.{Msg}
use protocoale_de_comunicati.Transfer.{
  is_string, is_intact, respond, Sender, handle_response, going, send_frame, take_response, fill,
  slide, drain, count, main,
}

-- What the receiver's answers are to the sender, for the messages that the receiver got.
abbrev pub responses : List Msg → List (Option Memory)
responses [] = []
responses (r ∷ rs) = some (respond r).payload ∷ responses rs

abbrev pub intacts : List Msg → ℕ
intacts [] = 0
intacts (r ∷ rs) = if is_intact r then suc (intacts rs) else intacts rs

abbrev pub broken : List Msg → ℕ
broken [] = 0
broken (r ∷ rs) = if is_intact r then broken rs else suc (broken rs)

abbrev pub counters : (acks nacks in_queue sent : ℕ) → Sender
counters a n q t = record { acks = a; nacks = n; in_queue = q; sent = t }

handle-respond :
    (r : Msg) (a n q t : ℕ)
    → handle_response (respond r).payload (counters a n q t)
      ≡ (if is_intact r then counters (a + 1) n q t else counters a (n + 1) q t)
unfolding handle_response respond is_string
handle-respond r a n q t = elim (Bool-cases (is_intact r)) [
  | inl good ↦ rw good refl
  | inr bad ↦ rw bad refl
]

module _ (send_fails : ℕ → Bool) (works : (k : ℕ) → send_fails k ≡ false) where
  fill_runs :
      (k a n q t : ℕ)
      → q + k < 2 ^ 32
      → fill send_fails k (counters a n q t) ≡ going (counters a n (q + k) (t + k))
  unfolding fill send_frame
  fill_runs zero a n q t lt = grind arith
  fill_runs (suc k) a n q t lt =
      rw (works t, fill_runs k a n ((q + 1) % 2 ^ 32) (t + 1) (omega arith)) (grind arith)

  slide_runs :
      (ms : List Msg) (rest : List (Option Memory)) (a n q t : ℕ)
      → q < 2 ^ 32
      → slide send_fails (length ms) (responses ms ++ rest) (counters a n q t)
        ≡ going (rest, counters (a + intacts ms) (n + broken ms) q (t + length ms))
  unfolding slide take_response send_frame
  slide_runs [] rest a n q t lt = grind arith
  slide_runs (r ∷ ms) rest a n q t lt =
      let back : ((q + 2 ^ 32 - 1) % 2 ^ 32 + 1) % 2 ^ 32 ≡ q = omega arith in
      elim (Bool-cases (is_intact r)) [
        | inl good ↦
            rw
              (
                handle-respond r a n ((q + 2 ^ 32 - 1) % 2 ^ 32) t,
                good,
                works t,
                back,
                slide_runs ms rest (a + 1) n q (t + 1) lt,
              )
              (grind arith)
        | inr bad ↦
            rw
              (
                handle-respond r a n ((q + 2 ^ 32 - 1) % 2 ^ 32) t,
                bad,
                works t,
                back,
                slide_runs ms rest a (n + 1) q (t + 1) lt,
              )
              (grind arith)
      ]

drain_runs :
    (ms : List Msg) (rest : List (Option Memory)) (a n q t : ℕ)
    → q + length ms < 2 ^ 32
    → drain (length ms) (responses ms ++ rest) (counters a n (q + length ms) t)
      ≡ going (rest, counters (a + intacts ms) (n + broken ms) q t)
unfolding drain take_response
drain_runs [] rest a n q t lt = grind arith
drain_runs (r ∷ ms) rest a n q t lt =
    let back : (q + suc (length ms) + 2 ^ 32 - 1) % 2 ^ 32 ≡ q + length ms = omega arith in
    elim (Bool-cases (is_intact r)) [
      | inl good ↦
          rw
            (
              back,
              handle-respond r a n (q + length ms) t,
              good,
              drain_runs ms rest (a + 1) n q t (omega arith),
            )
            (grind arith)
      | inr bad ↦
          rw
            (
              back,
              handle-respond r a n (q + length ms) t,
              bad,
              drain_runs ms rest a (n + 1) q t (omega arith),
            )
            (grind arith)
    ]

responses-append : (ms ns : List Msg) → responses (ms ++ ns) ≡ responses ms ++ responses ns
responses-append [] ns = refl
responses-append (m ∷ ms) ns = ap (λ rs. some (respond m).payload ∷ rs) (responses-append ms ns)

-- The ACKs and NACKs are as many as the messages.
intacts-broken : (ms : List Msg) → intacts ms + broken ms ≡ length ms
intacts-broken [] = refl
intacts-broken (r ∷ ms) = elim (Bool-cases (is_intact r)) [
  | inl good ↦ rw good (omega (arith, intacts-broken ms))
  | inr bad ↦ rw bad (omega (arith, intacts-broken ms))
]

-- With a window between 1 and 100 frames and a `send_message` that never fails, and once the receiver
-- has answered 100 messages, of which the last `window` are those of the last loop, the sender ends
-- with 100 frames sent and none in the queue; its ACKs are the messages that arrived intact, its NACKs
-- those that did not, 100 in all.
pub main_completes :
    (send_fails : ℕ → Bool) (window : ℕ) (early late : List Msg)
    → ((k : ℕ) → send_fails k ≡ false)
    → 0 < window
    → length early + window ≡ count
    → length late ≡ window
    → (main send_fails window (responses (early ++ late))
        ≡ going ([], counters (intacts early + intacts late) (broken early + broken late) 0 count))
      × (intacts early + intacts late + (broken early + broken late) ≡ count)
unfolding main
main_completes send_fails window early late works some_window total same =
    let start : 100 - window ≡ length early = omega arith in
    let end : window ≡ length late = sym same in
    let rest : responses late ≡ responses late ++ [] = sym (append-nil (responses late)) in
    (
      rw
          (
            fill_runs send_fails works window 0 0 0 0 (omega arith),
            responses-append early late,
            start,
            slide_runs send_fails works early (responses late) 0 0 (0 + window) (0 + window)
                (omega arith),
            rest,
            end,
            drain_runs late [] (0 + intacts early) (0 + broken early) 0
                (0 + length late + length early) (omega arith),
          )
          (grind arith),
      omega (arith, intacts-broken early, intacts-broken late),
    )
