-- ===== src/Cells.antt =====
-- Memory of singly linked cells: `struct cell` of tema1/include/list.h and `struct q` of
-- laboratoare/lab-03/link_emulator/queue.h, which links by `prev`.
pub mod Chain
use protocoale_de_comunicati.Common.{
  ℕ, Option, none, some, ◌==◌, if◌then◌else◌, Outcome, ok, exited, fault, ◌>>=◌,
}

pub record Cell (A : Type 0) : Type 0 where
  pub element : A
  pub next : ℕ

abbrev pub null_ptr : ℕ
null_ptr = 0

abbrev pub Heap : Type 0 → Type 0
Heap A = ℕ → Option (Cell A)

module _ {A : Type 0} where
  abbrev pub cell : A → ℕ → Cell A
  cell x p = record { element = x; next = p }

  -- `free` for `none`.
  abbrev pub put : Heap A → ℕ → Option (Cell A) → Heap A
  put h p c a = if a == p then c else h a

  -- A read through a pointer, a fault where it holds no cell.
  abbrev pub load : Heap A → ℕ → Outcome (Cell A)
  load h p = if p == null_ptr then fault else elim (h p) [ none ↦ fault | some c ↦ ok c ]

  -- `malloc` and the writes to the new cell; a fault where `malloc` returned `NULL`, which the code
  -- does not test.
  abbrev pub alloc : Heap A → (fresh : ℕ) → A → ℕ → Outcome (Heap A)
  alloc h fresh x p = if fresh == null_ptr then fault else ok (put h fresh (some (cell x p)))
