-- ===== src/Link/Queue/Fifo.antt =====
-- The queue of laboratoare/lab-03/link_emulator/queue.c is a first-in first-out list.
use protocoale_de_comunicati.Common.{
  ℕ, ◌+◌, ◌<◌, ◌≡◌, ◌≢◌, refl, sym, ap, true, false, Option, none, some, List, [], ◌∷◌, ◌++◌, map,
  arith, length, length-append, ltb, lt→ltb, ◌==◌, Outcome, ok, ◌>>=◌, Returns, Returns-value,
  Whenever, Whenever-value, ◌^◌,
}
use protocoale_de_comunicati.Cells.{cell}
use protocoale_de_comunicati.Cells.Chain.{
  Nodes, has, has-ne_sym, has-none, has-last_of, last_of-live, first_of, last_of, Linked,
  Linked-put, Linked-snoc, Linked-swap, last_of-snoc,
}
use protocoale_de_comunicati.Link.Queue.{Store, link_entry, enqueue, unlink_entry, dequeue}

-- A call of the emulator on a queue; `fresh` is what `malloc` returns for the new entry.
pub data Call (A : Type 0) : Type 0 where
  put_in : (fresh : ℕ) → A → Call A
  take_out : Call A

module _ {A : Type 0} where
  -- The store holds the entries, the oldest first.
  pub record IsQueue (s : Store A) (cs : Nodes A) : Type 0 where
    pub linked : Linked s.heap cs
    pub last : s.queue.last ≡ first_of cs
    pub first : s.queue.first ≡ last_of 0 cs
    pub size : s.queue.size ≡ length cs
    pub room : length cs < 2 ^ 31

  enqueue_nodes :
      (s : Store A) (p : ℕ) (x : A) (cs : Nodes A)
      → p ≢ 0
      → has p cs ≡ false
      → length cs + 1 < 2 ^ 31
      → IsQueue s cs
      → Returns (λ s'. IsQueue s' (cs ++ ((p, x) ∷ []))) (enqueue s p x)
  unfolding enqueue link_entry
  enqueue_nodes s p x [] np out room v =
      let live : (p == 0) ≡ false = ground arith in
      rw (v.first, v.last, live, v.size)
        (record {
          linked = (np, ground arith, refl, tt);
          last = refl;
          first = refl;
          size = refl;
          room = omega arith;
        })
  enqueue_nodes s p x ((a, y) ∷ cs) np out room v =
      let (z, last, new) = Linked-snoc s.heap a y cs p x np out v.linked in
      let live : (p == 0) ≡ false = ground arith in
      let tail_live = last_of-live s.heap a y cs v.linked in
      let other = has-ne_sym p (last_of a cs) ((a, y) ∷ cs) out (has-last_of a y cs) in
      let fits : ltb (length ((a, y) ∷ cs) + 1) (2 ^ 31) ≡ true = lt→ltb _ _ room in
      rw (v.first, tail_live, last, live, v.size, fits)
        (record {
          linked =
              Linked-swap s.heap p (last_of a cs) (some (cell x 0)) (some (cell z p))
                (((a, y) ∷ cs) ++ ((p, x) ∷ [])) other new;
          last = v.last;
          first = sym (last_of-snoc a p x cs);
          size = omega (arith, length-append cs ((p, x) ∷ []));
          room = omega (arith, length-append cs ((p, x) ∷ []));
        })

  dequeue_nodes :
      (s : Store A) (p : ℕ) (x : A) (cs : Nodes A)
      → IsQueue s ((p, x) ∷ cs)
      → Returns (λ (y, s'). (y ≡ some x) × IsQueue s' cs) (dequeue s)
  unfolding dequeue unlink_entry
  dequeue_nodes s p x [] v =
      let (np, at, apart, l) = v.linked in
      let live : (p == 0) ≡ false = ground arith in
      let same : (p == p) ≡ true = ground arith in
      rw (v.first, v.last, live, same, at)
        (
          refl,
          record {
            linked = tt;
            last = refl;
            first = refl;
            size = rw v.size refl;
            room = omega arith;
          },
        )
  dequeue_nodes s p x ((b, y) ∷ cs) v =
      let (np, at, apart, l) = v.linked in
      let live : (p == 0) ≡ false = ground arith in
      let tail_live = last_of-live s.heap b y cs l in
      let other = has-ne_sym p (last_of b cs) ((b, y) ∷ cs) apart (has-last_of b y cs) in
      rw (v.first, v.last, live, tail_live, other, at)
        (
          refl,
          record {
            linked = Linked-put s.heap p none ((b, y) ∷ cs) apart l;
            last = refl;
            first = refl;
            size = rw v.size (omega (arith, v.room));
            room = omega (arith, v.room);
          },
        )

  dequeue-none : (s : Store A) → IsQueue s [] → dequeue s ≡ ok (none, s)
  unfolding dequeue
  dequeue-none s v = rw (v.first, v.size) refl

  -- What the calls of `dequeue` return.
  unfoldable pub taken : Store A → List (Call A) → Outcome (List (Option A))
  taken s [] = ok []
  taken s (put_in fresh m ∷ calls) = enqueue s fresh m >>= λ s'. taken s' calls
  taken s (take_out ∷ calls) = dequeue s >>= λ (m, s'). taken s' calls >>= λ ms. ok (m ∷ ms)

  -- The same calls on a list that is taken from in front, with `none` while it is empty.
  unfoldable pub fifo : List A → List (Call A) → List (Option A)
  fifo ms [] = []
  fifo ms (put_in fresh m ∷ calls) = fifo (ms ++ (m ∷ [])) calls
  fifo [] (take_out ∷ calls) = none ∷ fifo [] calls
  fifo (m ∷ ms) (take_out ∷ calls) = some m ∷ fifo ms calls

  -- Each `malloc` returns an address that is not `NULL` and holds no entry at that time.
  unfoldable pub AreFresh : Store A → List (Call A) → Type 0
  AreFresh s [] = Unit
  AreFresh s (put_in fresh m ∷ calls) =
      (fresh ≢ 0) × (s.heap fresh ≡ none) × Whenever (λ s'. AreFresh s' calls) (enqueue s fresh m)
  AreFresh s (take_out ∷ calls) = Whenever (λ (m, s'). AreFresh s' calls) (dequeue s)

  abbrev pub elements : Nodes A → List A
  elements cs = map (λ (p, x). x) cs

  elements-snoc :
      (cs : Nodes A) (p : ℕ) (x : A) → elements (cs ++ ((p, x) ∷ [])) ≡ elements cs ++ (x ∷ [])
  elements-snoc [] p x = refl
  elements-snoc ((a, y) ∷ cs) p x = ap (λ xs. y ∷ xs) (elements-snoc cs p x)

  -- From a queue of fewer than 2 ^ 31 entries, with those still to come, and while `malloc` returns
  -- fresh addresses, no call ends the program or leaves its memory, no assertion fails, and the
  -- calls of `dequeue` return what they do on a list that is taken from in front.
  pub taken-fifo :
      (s : Store A) (cs : Nodes A) (calls : List (Call A))
      → IsQueue s cs
      → AreFresh s calls
      → length cs + length calls < 2 ^ 31
      → taken s calls ≡ ok (fifo (elements cs) calls)
  unfolding taken fifo AreFresh
  taken-fifo s cs [] v fresh room = refl
  taken-fifo s cs (put_in p x ∷ calls) v (np, empty, later) room =
      let (s', step, v') =
        Returns-value (enqueue s p x)
          (enqueue_nodes s p x cs np (has-none s.heap p cs empty v.linked) (omega arith) v) in
      let longer = length-append cs ((p, x) ∷ []) in
      let rest =
        taken-fifo s' (cs ++ ((p, x) ∷ [])) calls v'
          (Whenever-value (λ t. AreFresh t calls) _ s' step later) (omega (arith, longer)) in
      rw (step, rest, elements-snoc cs p x) refl
  taken-fifo s [] (take_out ∷ calls) v later room =
      let rest =
        taken-fifo s [] calls v
          (Whenever-value (λ (z, t). AreFresh t calls) _ (none, s) (dequeue-none s v) later)
          (omega arith) in
      rw (dequeue-none s v, rest) refl
  taken-fifo s ((p, x) ∷ cs) (take_out ∷ calls) v later room =
      let ((y, s'), step, (same, v')) = Returns-value (dequeue s) (dequeue_nodes s p x cs v) in
      let rest =
        taken-fifo s' cs calls v' (Whenever-value (λ (z, t). AreFresh t calls) _ (y, s') step later)
          (omega arith) in
      rw (step, rest, same) refl
