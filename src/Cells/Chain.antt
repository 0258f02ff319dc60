-- ===== src/Cells/Chain.antt =====
-- Chains of cells: what a first-in first-out list in memory stands for.
use protocoale_de_comunicati.Common.{
  ℕ, ◌≡◌, ◌≢◌, refl, Bool, true, false, ◌||◌, Option, none, some, List, [], ◌∷◌, ◌++◌, arith, ◌==◌,
  ok,
}
use protocoale_de_comunicati.Cells.{Cell, Heap, cell, put, load}

-- Address and element of each cell, the one to be taken first in front.
abbrev pub Nodes : Type 0 → Type 0
Nodes A = List (ℕ × A)

module _ {A : Type 0} where
  abbrev pub has : ℕ → Nodes A → Bool
  has a [] = false
  has a ((b, x) ∷ cs) = (a == b) || has a cs

  abbrev pub first_of : Nodes A → ℕ
  first_of [] = 0
  first_of ((a, x) ∷ cs) = a

  -- The address of the last cell, `d` where there is none.
  abbrev pub last_of : ℕ → Nodes A → ℕ
  last_of d [] = d
  last_of d ((a, x) ∷ cs) = last_of a cs

  -- The cells stand in memory at distinct addresses, each pointing to the next, the last to `NULL`.
  abbrev pub Linked : Heap A → Nodes A → Type 0
  Linked h [] = Unit {0}
  Linked h ((a, x) ∷ cs) =
      (a ≢ 0) × (h a ≡ some (cell x (first_of cs))) × (has a cs ≡ false) × Linked h cs

  pub has-last_of : (a : ℕ) (x : A) (cs : Nodes A) → has (last_of a cs) ((a, x) ∷ cs) ≡ true
  has-last_of a x [] = ground arith
  has-last_of a x ((b, y) ∷ cs) = ground (arith, has-last_of b y cs)

  pub load-Linked :
      (h : Heap A) (a : ℕ) (x : A) (cs : Nodes A)
      → Linked h ((a, x) ∷ cs)
      → load h a ≡ ok (cell x (first_of cs))
  load-Linked h a x cs (nonzero, at, out, rest) =
      let live : (a == 0) ≡ false = ground arith in rw (live, at)

  -- A change at an address that is no cell's leaves the chain.
  pub Linked-put :
      (h : Heap A) (p : ℕ) (c : Option (Cell A)) (cs : Nodes A)
      → has p cs ≡ false
      → Linked h cs
      → Linked (put h p c) cs
  Linked-put h p c [] out l = tt
  Linked-put h p c ((a, x) ∷ cs) out (nonzero, at, apart, l) =
      (nonzero, ground arith, apart, Linked-put h p c cs (ground arith) l)

  pub last_of-live :
      (h : Heap A) (a : ℕ) (x : A) (cs : Nodes A)
      → Linked h ((a, x) ∷ cs)
      → (last_of a cs == 0) ≡ false
  last_of-live h a x [] (nonzero, at, apart, l) = ground arith
  last_of-live h a x ((b, y) ∷ cs) (nonzero, at, apart, l) = last_of-live h b y cs l

  -- An address that holds no cell is in no chain.
  pub has-none : (h : Heap A) (p : ℕ) (cs : Nodes A) → h p ≡ none → Linked h cs → has p cs ≡ false
  has-none h p [] empty l = refl
  has-none h p ((a, x) ∷ cs) empty (nonzero, at, apart, l) =
      let elsewhere : p ≢ a = λ e. cc in
      let rest : has p cs ≡ false = has-none h p cs empty l in ground arith

  -- Changes at two addresses, in either order.
  pub Linked-swap :
      (h : Heap A) (p q : ℕ) (c d : Option (Cell A)) (cs : Nodes A)
      → (q == p) ≡ false
      → Linked (put (put h p c) q d) cs
      → Linked (put (put h q d) p c) cs
  Linked-swap h p q c d [] other l = tt
  Linked-swap h p q c d ((a, x) ∷ cs) other (nonzero, at, apart, l) =
      (nonzero, ground arith, apart, Linked-swap h p q c d cs other l)

  -- An address inside a chain and one outside differ.
  pub has-ne : (a b : ℕ) (cs : Nodes A) → has a cs ≡ false → has b cs ≡ true → (a == b) ≡ false
  has-ne a b [] out inside = cc
  has-ne a b ((c, x) ∷ cs) out inside = ground (arith, has-ne a b cs)

  pub has-ne_sym : (a b : ℕ) (cs : Nodes A) → has a cs ≡ false → has b cs ≡ true → (b == a) ≡ false
  has-ne_sym a b [] out inside = cc
  has-ne_sym a b ((c, x) ∷ cs) out inside = ground (arith, has-ne_sym a b cs)

  has-snoc : (a p : ℕ) (x : A) (cs : Nodes A) → has a (cs ++ ((p, x) ∷ [])) ≡ (has a cs || (a == p))
  has-snoc a p x [] = ground arith
  has-snoc a p x ((b, y) ∷ cs) = ground (arith, has-snoc a p x cs)

  -- An address outside a chain is outside the chain with one more cell elsewhere.
  avoids :
      (a p b : ℕ) (x : A) (cs : Nodes A)
      → (a == b || has a cs) ≡ false
      → (a == p) ≡ false
      → (a == b || has a (cs ++ ((p, x) ∷ []))) ≡ false
  avoids a p b x [] apart off = ground arith
  avoids a p b x ((c, y) ∷ cs) apart off = ground (arith, has-snoc a p x cs)

  pub last_of-snoc : (d p : ℕ) (x : A) (cs : Nodes A) → last_of d (cs ++ ((p, x) ∷ [])) ≡ p
  last_of-snoc d p x [] = refl
  last_of-snoc d p x ((b, y) ∷ cs) = last_of-snoc b p x cs

  -- The last cell of a chain, which points to `NULL`, and the chain with a new cell behind it.
  pub Linked-snoc :
      (h : Heap A) (a : ℕ) (y : A) (cs : Nodes A) (p : ℕ) (x : A)
      → p ≢ 0
      → has p ((a, y) ∷ cs) ≡ false
      → Linked h ((a, y) ∷ cs)
      → (z : A) × (h (last_of a cs) ≡ some (cell z 0))
        × Linked
            (put (put h p (some (cell x 0))) (last_of a cs) (some (cell z p)))
            (((a, y) ∷ cs) ++ ((p, x) ∷ []))
  Linked-snoc h a y [] p x np out (na, at, apart, l) =
      (y, at, (na, ground arith, ground arith, (np, ground arith, refl, tt)))
  Linked-snoc h a y ((b, w) ∷ cs) p x np out (na, at, apart, l) =
      let (z, last, new) = Linked-snoc h b w cs p x np (ground arith) l in
      let off_last : (a == last_of b cs) ≡ false =
        has-ne a (last_of b cs) ((b, w) ∷ cs) apart (has-last_of b w cs) in
      let off_new : (a == p) ≡ false = ground arith in
      (z, last, (na, rw (off_last, off_new) at, avoids a p b x cs apart off_new, new))
