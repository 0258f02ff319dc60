-- ===== src/Router/Queue.antt =====
-- tema1/queue.c and tema1/list.c, on the memory of cells.
pub mod Fifo
use protocoale_de_comunicati.Common.{
  ℕ, Bool, true, false, none, some, List, [], ◌∷◌, ◌==◌, if◌then◌else◌, Outcome, ok, exited, fault,
  ◌>>=◌,
}
use protocoale_de_comunicati.Cells.{Cell, Heap, null_ptr, cell, put, load, alloc}

-- `struct queue`.
pub record Queue : Type 0 where
  pub head : ℕ
  pub tail : ℕ

-- The queue and the memory that it lives in.
pub record Store (A : Type 0) : Type 0 where
  pub heap : Heap A
  pub queue : Queue

unfoldable pub queue_create : {A : Type 0} → Heap A → Store A
queue_create h = record { heap = h; queue = record { head = null_ptr; tail = null_ptr } }

unfoldable pub queue_empty : Queue → Bool
queue_empty q = q.head == null_ptr

module _ {A : Type 0} where
  -- `cons`; `fresh` is what `malloc` returns.
  unfoldable pub cons : Heap A → (fresh : ℕ) → A → (l : ℕ) → Outcome (Heap A)
  cons h fresh element l = alloc h fresh element l

  -- `cdr_and_free`: the next pointer, and the memory without the cell.
  unfoldable pub cdr_and_free : Heap A → (l : ℕ) → Outcome (ℕ × Heap A)
  cdr_and_free h l = load h l >>= λ c. ok (c.next, put h l none)

  -- `q->tail->next = cons(element, NULL); q->tail = q->tail->next;`
  unfoldable pub append_cell : Store A → (fresh : ℕ) → A → Outcome (Store A)
  unfolding cons
  append_cell s fresh element = do
    h ← cons s.heap fresh element null_ptr
    t ← load h s.queue.tail
    ok (record {
      heap = put h s.queue.tail (some (record t { next = fresh }));
      queue = record { head = s.queue.head; tail = fresh };
    })

  unfoldable pub queue_enq : Store A → (fresh : ℕ) → A → Outcome (Store A)
  unfolding queue_empty cons append_cell
  queue_enq s fresh element =
      if queue_empty s.queue
      then (do
        h ← cons s.heap fresh element null_ptr
        ok (record { heap = h; queue = record { head = fresh; tail = fresh } }))
      else append_cell s fresh element

  -- The assertion ends the program on an empty queue. `tail` is left as it is.
  unfoldable pub queue_deq : Store A → Outcome (A × Store A)
  unfolding queue_empty cdr_and_free
  queue_deq s = if queue_empty s.queue then exited else do
    c ← load s.heap s.queue.head
    (next, h) ← cdr_and_free s.heap s.queue.head
    ok (c.element, record { heap = h; queue = record { head = next; tail = s.queue.tail } })
