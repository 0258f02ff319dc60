-- ===== src/Tests/QueueTests.antt =====
-- The theorems on the two queues, each applied to some calls.
use protocoale_de_comunicati.Common.{ℕ, ◌≡◌, refl, none, some, List, [], ◌∷◌, arith, ok}
use protocoale_de_comunicati.Cells.{Heap}
use protocoale_de_comunicati.Router.Queue.{queue_create, queue_enq, queue_deq}
use protocoale_de_comunicati.Router.Queue.Fifo.{
  Call, enq, deq, dequeued, fifo, AreFresh, dequeued-fifo,
}
use protocoale_de_comunicati.Link.Queue.{create_queue, enqueue, dequeue}
use protocoale_de_comunicati.Link.Queue.Fifo as Entries
use protocoale_de_comunicati.Link.Queue.Fifo.{put_in, take_out, taken, taken-fifo}

abbrev no_cells : Heap ℕ
no_cells p = none

abbrev some_calls : List (Call ℕ)
some_calls = enq 16 7 ∷ enq 32 8 ∷ deq ∷ enq 16 9 ∷ deq ∷ deq ∷ deq ∷ []

dequeued-fifo_example : dequeued (queue_create no_cells) some_calls ≡ fifo [] some_calls
unfolding queue_create queue_enq queue_deq AreFresh
dequeued-fifo_example =
    dequeued-fifo (queue_create no_cells) [] some_calls
      (record { linked = tt; head = refl; tail = refl })
      (omega arith, refl, (omega arith, refl, (omega arith, refl, tt)))

abbrev more_calls : List (Entries.Call ℕ)
more_calls =
    put_in 16 7 ∷ put_in 32 8 ∷ take_out ∷ put_in 16 9 ∷ take_out ∷ take_out ∷ take_out ∷ []

taken-fifo_example : taken (create_queue no_cells) more_calls ≡ ok (Entries.fifo [] more_calls)
unfolding create_queue enqueue dequeue Entries.AreFresh
taken-fifo_example =
    taken-fifo (create_queue no_cells) [] more_calls
      (record { linked = tt; last = refl; first = refl; size = refl; room = omega arith })
      (omega arith, refl, (omega arith, refl, (omega arith, refl, tt))) (omega arith)

-- The fourth dequeue finds nothing.
taken_test : taken (create_queue no_cells) more_calls ≡ ok (some 7 ∷ some 8 ∷ some 9 ∷ none ∷ [])
unfolding create_queue taken enqueue dequeue
taken_test = refl
