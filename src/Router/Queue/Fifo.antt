-- ===== src/Router/Queue/Fifo.antt =====
-- The queue of tema1/queue.c is a first-in first-out list.
use protocoale_de_comunicati.Common.{
  ℕ, ◌≡◌, ◌≢◌, refl, sym, ap, false, none, List, [], ◌∷◌, ◌++◌, arith, ◌==◌, Outcome, ok, exited,
  ◌>>=◌, Returns, Returns-value, Whenever, Whenever-value, map,
}
use protocoale_de_comunicati.Cells.Chain.{
  Nodes, has, has-ne_sym, has-none, has-last_of, last_of-live, first_of, last_of, Linked,
  Linked-put, Linked-snoc, last_of-snoc,
}
use protocoale_de_comunicati.Router.Queue.{Store, queue_enq, queue_deq}

-- A call of the program on the queue; `fresh` is what `malloc` returns for the new cell.
pub data Call (A : Type 0) : Type 0 where
  enq : (fresh : ℕ) → A → Call A
  deq : Call A

module _ {A : Type 0} where
  -- The store holds the nodes, the oldest first. Of an empty queue the tail may be anything.
  pub record IsQueue (s : Store A) (cs : Nodes A) : Type 0 where
    pub linked : Linked s.heap cs
    pub head : s.queue.head ≡ first_of cs
    pub tail : s.queue.tail ≡ last_of s.queue.tail cs

  enq_nodes :
      (s : Store A) (p : ℕ) (x : A) (cs : Nodes A)
      → p ≢ 0
      → has p cs ≡ false
      → IsQueue s cs
      → Returns (λ s'. IsQueue s' (cs ++ ((p, x) ∷ []))) (queue_enq s p x)
  unfolding queue_enq
  enq_nodes s p x [] np out v =
      let live : (p == 0) ≡ false = ground arith in
      rw (v.head, live) (record { linked = (np, ground arith, refl, tt); head = refl; tail = refl })
  enq_nodes s p x ((a, y) ∷ cs) np out v =
      let (z, last, new) = Linked-snoc s.heap a y cs p x np out v.linked in
      let live : (p == 0) ≡ false = ground arith in
      let occupied : (a == 0) ≡ false = ground arith in
      let tail_live : (last_of a cs == 0) ≡ false = last_of-live s.heap a y cs v.linked in
      let other = has-ne_sym p (last_of a cs) ((a, y) ∷ cs) out (has-last_of a y cs) in
      rw (v.head, occupied, live, v.tail, tail_live, other, last)
        (record { linked = new; head = refl; tail = sym (last_of-snoc a p x cs) })

  tail_kept : (t p : ℕ) (cs : Nodes A) → t ≡ last_of p cs → t ≡ last_of t cs
  tail_kept t p [] e = refl
  tail_kept t p ((a, x) ∷ cs) e = e

  deq_nodes :
      (s : Store A) (p : ℕ) (x : A) (cs : Nodes A)
      → IsQueue s ((p, x) ∷ cs)
      → Returns (λ (y, s'). (y ≡ x) × IsQueue s' cs) (queue_deq s)
  unfolding queue_deq
  deq_nodes s p x cs v =
      let (np, at, apart, l) = v.linked in
      let live : (p == 0) ≡ false = ground arith in
      rw (v.head, live, at)
        (
          refl,
          record {
            linked = Linked-put s.heap p none cs apart l;
            head = refl;
            tail = tail_kept s.queue.tail p cs v.tail;
          },
        )

  -- The elements that the dequeues return.
  unfoldable pub dequeued : Store A → List (Call A) → Outcome (List A)
  dequeued s [] = ok []
  dequeued s (enq fresh x ∷ calls) = queue_enq s fresh x >>= λ s'. dequeued s' calls
  dequeued s (deq ∷ calls) = queue_deq s >>= λ (x, s'). dequeued s' calls >>= λ xs. ok (x ∷ xs)

  -- The same calls on a list, which is taken from in front; a dequeue of the empty list ends the program.
  unfoldable pub fifo : List A → List (Call A) → Outcome (List A)
  fifo xs [] = ok []
  fifo xs (enq fresh x ∷ calls) = fifo (xs ++ (x ∷ [])) calls
  fifo [] (deq ∷ calls) = exited
  fifo (x ∷ xs) (deq ∷ calls) = fifo xs calls >>= λ ys. ok (x ∷ ys)

  -- Each `malloc` returns an address that is not `NULL` and holds no cell at that time.
  unfoldable pub AreFresh : Store A → List (Call A) → Type 0
  AreFresh s [] = Unit
  AreFresh s (enq fresh x ∷ calls) =
      (fresh ≢ 0) × (s.heap fresh ≡ none) × Whenever (λ s'. AreFresh s' calls) (queue_enq s fresh x)
  AreFresh s (deq ∷ calls) = Whenever (λ (x, s'). AreFresh s' calls) (queue_deq s)

  abbrev pub elements : Nodes A → List A
  elements cs = map (λ (p, x). x) cs

  elements-snoc :
      (cs : Nodes A) (p : ℕ) (x : A) → elements (cs ++ ((p, x) ∷ [])) ≡ elements cs ++ (x ∷ [])
  elements-snoc [] p x = refl
  elements-snoc ((a, y) ∷ cs) p x = ap (λ xs. y ∷ xs) (elements-snoc cs p x)

  deq_empty : (s : Store A) → IsQueue s [] → queue_deq s ≡ exited
  unfolding queue_deq
  deq_empty s v = rw v.head refl

  -- On a queue and while `malloc` returns fresh addresses, the dequeues return what they do on a list
  -- that is taken from in front, and the program ends on a dequeue exactly where that list is empty.
  pub dequeued-fifo :
      (s : Store A) (cs : Nodes A) (calls : List (Call A))
      → IsQueue s cs
      → AreFresh s calls
      → dequeued s calls ≡ fifo (elements cs) calls
  unfolding dequeued fifo AreFresh
  dequeued-fifo s cs [] v fresh = refl
  dequeued-fifo s cs (enq p x ∷ calls) v (np, empty, later) =
      let (s', step, v') =
        Returns-value (queue_enq s p x)
          (enq_nodes s p x cs np (has-none s.heap p cs empty v.linked) v) in
      let rest =
        dequeued-fifo s' (cs ++ ((p, x) ∷ [])) calls v'
          (Whenever-value (λ t. AreFresh t calls) _ s' step later) in
      rw (step, rest, elements-snoc cs p x) refl
  dequeued-fifo s [] (deq ∷ calls) v later = rw (deq_empty s v) refl
  dequeued-fifo s ((p, x) ∷ cs) (deq ∷ calls) v later =
      let ((y, s'), step, (same, v')) = Returns-value (queue_deq s) (deq_nodes s p x cs v) in
      let rest =
        dequeued-fifo s' cs calls v'
          (Whenever-value (λ (z, t). AreFresh t calls) _ (y, s') step later) in
      rw (step, rest, same) refl
