-- ===== src/Http/Buffer/Find.antt =====
-- What the searches of laboratoare/lab-10/buffer.c find, and what `buffer_add` keeps.
use protocoale_de_comunicati.Common.{
  ℕ, zero, suc, ◌+◌, ◌-◌, ◌<◌, ◌^◌, ◌≡◌, refl, sym, subst, Bool, true, false, Bool-cases, inl, inr,
  arith, Option, none, some, List, [], ◌∷◌, ◌++◌, length, length-append, length-drop, take_all,
  drop, ltb, ◌==◌, Returns,
}
use protocoale_de_comunicati.Http.Buffer.{
  Buffer, buffer_add, contents, matches_at, find_from, find_by, buffer_find,
  buffer_find_insensitive, tolower,
}

-- The size of a buffer is that of its block.
abbrev pub IsBuffer : Buffer → Type 0
IsBuffer b = b.size ≡ length (contents b)

-- The first position at which the bytes match the pattern, or none at all.
abbrev pub IsFirst : (same : ℕ → ℕ → Bool) → (bytes pattern : List ℕ) → Option ℕ → Type 0
IsFirst same bytes pattern none = (i : ℕ) → matches_at same (drop i bytes) pattern ≡ false
IsFirst same bytes pattern (some i) =
    (matches_at same (drop i bytes) pattern ≡ true)
    × ((j : ℕ) → j < i → matches_at same (drop j bytes) pattern ≡ false)

matches_at-short :
    (same : ℕ → ℕ → Bool) (xs pattern : List ℕ)
    → length xs < length pattern
    → matches_at same xs pattern ≡ false
unfolding matches_at
matches_at-short same xs [] lt = absurd (omega arith)
matches_at-short same [] (y ∷ ys) lt = refl
matches_at-short same (x ∷ xs) (y ∷ ys) lt =
    rw (matches_at-short same xs ys (omega arith)) (ground arith)

module _ (same : ℕ → ℕ → Bool) (block pattern : List ℕ) (some_pattern : 0 < length pattern) where
  find_from-IsFirst :
      (left i : ℕ)
      → length block < i + left + length pattern
      → ((j : ℕ) → j < i → matches_at same (drop j block) pattern ≡ false)
      → IsFirst same block pattern (find_from same left i block pattern)
  unfolding find_from
  find_from-IsFirst zero i past before = λ j. elim (Bool-cases (ltb j i)) [
    | inl lt ↦ before j (ground arith)
    | inr ge ↦ matches_at-short same (drop j block) pattern (ground (arith, length-drop j block))
  ]
  find_from-IsFirst (suc left) i past before =
      elim (Bool-cases (matches_at same (drop i block) pattern)) [
        | inl hit ↦ rw hit (hit, before)
        | inr miss ↦ rw miss (
            find_from-IsFirst left (i + 1) (omega arith) (λ j lt. elim (Bool-cases (j == i)) [
              | inl here ↦
                  let place : j ≡ i = ground arith in
                  subst (λ k. matches_at same (drop k block) pattern ≡ false) (sym place) miss
              | inr earlier ↦ before j (ground arith)
            ]))
      ]

find_by-IsFirst :
    (same : ℕ → ℕ → Bool) (b : Buffer) (pattern : List ℕ)
    → IsBuffer b
    → 0 < length pattern
    → IsFirst same (contents b) pattern (find_by same b pattern)
find_by-IsFirst same b pattern v some_pattern = elim (Bool-cases (ltb b.size (length pattern))) [
  | inl short ↦ rw short (λ i.
      matches_at-short same (drop i (contents b)) pattern
        (ground (arith, length-drop i (contents b), v)))
  | inr long ↦ rw long (
      find_from-IsFirst same (contents b) pattern some_pattern (b.size - length pattern + 1) 0
        (ground (arith, v)) (λ j lt. absurd (omega arith)))
]

-- On a buffer whose size is that of its block, and for a pattern that is not empty, both searches
-- return the first position at which the bytes are those of the pattern, up to the case of letters
-- in the second one, and -1 only where there is no such position.
find-IsFirst :
    (b : Buffer) (pattern : List ℕ)
    → IsBuffer b
    → 0 < length pattern
    → IsFirst (λ x y. x == y) (contents b) pattern (buffer_find b pattern)
      × IsFirst
          (λ x y. tolower x == tolower y)
          (contents b)
          pattern
          (buffer_find_insensitive b pattern)
unfolding buffer_find buffer_find_insensitive
find-IsFirst b pattern v some_pattern =
    (find_by-IsFirst _ b pattern v some_pattern, find_by-IsFirst _ b pattern v some_pattern)

add_block :
    (d : Option (List ℕ)) (n : ℕ) (bytes : List ℕ)
    → IsBuffer (record { data_block = d; size = n })
    → n + length bytes < 2 ^ 64
    → Returns
        (λ b'.
          IsBuffer b' × (contents b' ≡ contents (record { data_block = d; size = n }) ++ bytes))
        (buffer_add (record { data_block = d; size = n }) bytes)
unfolding buffer_add
add_block none n bytes v room = rw v (refl, refl)
add_block (some block) n bytes v room =
    rw (v, take_all (length block) block (omega arith))
      (omega (arith, length-append block bytes, v, room), refl)

-- On a buffer whose size is that of its block, and while sizes stay below 2 ^ 64, `buffer_add`
-- returns, appends the bytes, and keeps the size that of the block.
pub buffer_add-append :
    (b : Buffer) (bytes : List ℕ)
    → IsBuffer b
    → b.size + length bytes < 2 ^ 64
    → Returns (λ b'. IsBuffer b' × (contents b' ≡ contents b ++ bytes)) (buffer_add b bytes)
buffer_add-append b bytes v room = add_block b.data_block b.size bytes v room
