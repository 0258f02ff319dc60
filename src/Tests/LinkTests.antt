-- ===== src/Tests/LinkTests.antt =====
-- The theorems on the link emulator and on the transfer, each applied at concrete values.
use protocoale_de_comunicati.Common.{
  ℕ, zero, suc, ◌+◌, ◌≡◌, refl, true, false, List, [], ◌∷◌, ◌++◌, map, length, arith, exited,
  Whenever, ◌≤◌,
}
use protocoale_de_comunicati.Common.Xor.{xor}
use protocoale_de_comunicati.Link.Channel.{
  Msg, Config, Link, initial, receiving, holding, at_top, checked, waiting, put_in_flight, Draws,
  corrupted, receive, decide, deliver, check, turn, fly, receives, decides, checks, flies, Reaches,
  starts, continues, buffer_max,
}
use protocoale_de_comunicati.Link.Channel.Order.{messages, Reaches-order}
use protocoale_de_comunicati.Link.Channel.Bounds.{buffer_bounded}
use protocoale_de_comunicati.Link.Channel.Timing.{IsSpaced, finishes, next_finish, Reaches-IsSpaced}
use protocoale_de_comunicati.Link.Channel.Due.{AllAtMost, AllAfter, check_due}
use protocoale_de_comunicati.Link.Channel.Waits.{turn_aborts}
use protocoale_de_comunicati.Transfer.{
  checksum_from, checksum, is_intact, frame, count, going, main,
}
use protocoale_de_comunicati.Transfer.Flips.{corrupted_detected}
use protocoale_de_comunicati.Transfer.Window.{responses, intacts, broken, counters, main_completes}

abbrev config : Config
config = record { serialization_delay = 1000; delay = 500; loss = 10; corrupt = 10 }

abbrev hello : Msg
hello = record { len = 2; payload = λ i. 72 }

-- A message is received and kept, and the scheduler takes it into flight at 5000 microseconds.
abbrev no_loss : Draws
no_loss = record { drop = 50; flip = 50; index = 0; bit = 0 }

abbrev received : Link
received = record initial { forwarder = holding hello false }

abbrev buffered : Link
buffered = record initial { buffer = hello ∷ [] }

abbrev seen : Link
seen = record buffered { scheduler = checked 5000 true }

abbrev flying : Link
flying = record {
  buffer = [];
  in_flight = record { m = hello; finish_time = 6500 } ∷ [];
  idle_time = 6000;
  forwarder = receiving;
  scheduler = waiting 1000 1500;
}

Reaches-flying : Reaches config (hello ∷ []) [] flying
unfolding initial receive decide check deliver fly put_in_flight
Reaches-flying =
    continues (hello ∷ []) [] [] [] seen flying
      (continues (hello ∷ []) [] [] [] buffered seen
        (continues [] (hello ∷ []) [] [] received buffered
          (continues [] [] [] [] initial received starts (receives hello refl))
          (decides hello false no_loss (hello ∷ []) buffered refl refl))
        (checks 5000 (omega arith) refl))
      (flies 5000 true flying refl refl)

Reaches-order_example : messages [] ++ (messages flying.in_flight ++ flying.buffer) ≡ hello ∷ []
Reaches-order_example = Reaches-order config (hello ∷ []) [] flying Reaches-flying

buffer_bounded_example : length flying.buffer ≤ buffer_max
buffer_bounded_example = buffer_bounded config (hello ∷ []) [] flying Reaches-flying

Reaches-IsSpaced_example :
    IsSpaced 1000 (next_finish config flying) (finishes [] ++ finishes flying.in_flight)
Reaches-IsSpaced_example =
    Reaches-IsSpaced config (omega arith) (omega arith) (hello ∷ []) [] flying Reaches-flying

check_due_example :
    ((check flying 6500).0 ++ (check flying 6500).1.in_flight ≡ flying.in_flight)
    × AllAtMost 6500 (finishes (check flying 6500).0)
    × AllAfter 6500 (finishes (check flying 6500).1.in_flight)
check_due_example =
    check_due config (hello ∷ []) [] flying 6500 (omega arith) (omega arith) Reaches-flying

turn_aborts_example : turn config initial 5000 (hello ∷ []) ≡ exited
unfolding initial
turn_aborts_example = turn_aborts config initial 5000 hello [] refl refl (omega arith)

abbrev landing : Link
landing = record flying { scheduler = at_top }

-- `^` on bytes against the library's, on some numbers.
xor_test :
    map (λ (a, b). xor 8 a b) ((0x5a, 0xff) ∷ (0x80, 1) ∷ (0x33, 0x55) ∷ [])
    ≡ 0xa5 ∷ 0x81 ∷ 0x66 ∷ []
unfolding xor
xor_test = refl

frame_intact : is_intact frame ≡ true
unfolding is_intact frame checksum checksum_from xor
frame_intact = refl

corrupted_detected_example :
    Whenever (λ r. is_intact r ≡ false) (corrupted frame (record no_loss { index = 700; bit = 3 }))
corrupted_detected_example =
    corrupted_detected frame (record no_loss { index = 700; bit = 3 }) frame_intact

abbrev copies : ℕ → List Msg
copies zero = []
copies (suc n) = frame ∷ copies n

main_completes_example :
    (main (λ _. false) 4 (responses (copies 96 ++ copies 4))
      ≡ going (
        [],
        counters
            (intacts (copies 96) + intacts (copies 4))
            (broken (copies 96) + broken (copies 4))
            0
            count,
      ))
    × (intacts (copies 96) + intacts (copies 4) + (broken (copies 96) + broken (copies 4)) ≡ count)
main_completes_example =
    main_completes (λ _. false) 4 (copies 96) (copies 4) (λ _. refl) (omega arith) refl refl
