-- ===== src/Link/Queue.antt =====
-- laboratoare/lab-03/link_emulator/queue.c, on the memory of cells; `prev` is the cells' `next`.
pub mod Fifo
use protocoale_de_comunicati.Common.{
  ℕ, ◌+◌, ◌-◌, ◌%◌, ◌^◌, Bool, true, false, Option, none, some, List, [], ◌∷◌, ltb, ◌==◌,
  if◌then◌else◌, Outcome, ok, exited, fault, ◌>>=◌,
}
use protocoale_de_comunicati.Cells.{Cell, Heap, null_ptr, cell, put, load, alloc}

-- `queue`. `first` is the entry put in last and `last` the one taken out next; `size` is an `int` in
-- two's complement.
pub record Queue : Type 0 where
  pub size : ℕ
  pub first : ℕ
  pub last : ℕ

-- The queue and the memory that its entries live in.
pub record Store (A : Type 0) : Type 0 where
  pub heap : Heap A
  pub queue : Queue

unfoldable pub create_queue : {A : Type 0} → Heap A → Store A
create_queue h = record { heap = h; queue = record { size = 0; first = null_ptr; last = null_ptr } }

module _ {A : Type 0} where
  -- The branches of `enqueue`: the new entry becomes the first. An assertion ends the program.
  unfoldable pub link_entry : Store A → (fresh : ℕ) → Outcome (Store A)
  link_entry s fresh =
      if s.queue.first == null_ptr
      then if s.queue.last == null_ptr
        then ok (record s { queue = record s.queue { first = fresh; last = fresh } })
        else exited
      else do
        c ← load s.heap s.queue.first
        ok (record {
          heap = put s.heap s.queue.first (some (record c { next = fresh }));
          queue = record s.queue { first = fresh };
        })

  -- `fresh` is what `malloc` returns. An overflow of `size` is undefined.
  unfoldable pub enqueue : Store A → (fresh : ℕ) → A → Outcome (Store A)
  unfolding link_entry
  enqueue s fresh m = do
    s' ← link_entry s fresh
    h ← alloc s'.heap s'.queue.first m null_ptr
    if ltb (s'.queue.size + 1) (2 ^ 31)
        then ok (record { heap = h; queue = record s'.queue { size = s'.queue.size + 1 } })
        else fault

  -- The branches of `dequeue` on a queue that has entries: the queue without the last entry.
  unfoldable pub unlink_entry : Store A → Outcome Queue
  unlink_entry s =
      if s.queue.first == s.queue.last
      then load s.heap s.queue.first >>= (λ c.
        if c.next == null_ptr
        then ok (record s.queue { first = null_ptr; last = null_ptr })
        else exited)
      else load s.heap s.queue.last >>= λ c. ok (record s.queue { last = c.next })

  -- `none` is the `NULL` of an empty queue.
  unfoldable pub dequeue : Store A → Outcome (Option A × Store A)
  unfolding unlink_entry
  dequeue s =
      if s.queue.first == null_ptr then if s.queue.size == 0 then ok (none, s) else exited else do
        q ← unlink_entry s
        t ← load s.heap s.queue.last
        ok (
          some t.element,
          record {
            heap = put s.heap s.queue.last none;
            queue = record q { size = (q.size + 2 ^ 32 - 1) % 2 ^ 32 };
          },
        )
