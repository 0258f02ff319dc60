-- ===== src/Http/Buffer.antt =====
-- laboratoare/lab-10/buffer.c. Memory is taken to be granted whenever it is asked for.
pub mod Find
use protocoale_de_comunicati.Common.{
  ℕ, zero, suc, ◌+◌, ◌-◌, ◌%◌, ◌^◌, Bool, true, false, ◌&&◌, Option, none, some, List, [], ◌∷◌,
  ◌++◌, length, take, drop, leb, ltb, ◌==◌, if◌then◌else◌, Outcome, ok, fault,
}

-- `buffer`; `data` is `none` for `NULL`, and else the block of memory.
pub record Buffer : Type 0 where
  pub data_block : Option (List ℕ)
  pub size : ℕ

unfoldable pub buffer_init : Buffer
buffer_init = record { data_block = none; size = 0 }

unfoldable pub buffer_destroy : Buffer → Buffer
buffer_destroy b = record { data_block = none; size = 0 }

unfoldable pub buffer_is_empty : Buffer → Bool
buffer_is_empty b = elim b.data_block [ none ↦ true | some block ↦ false ]

-- The new block: the old one `realloc`ed, or a new one, and `memcpy` to `size`. A new block has room
-- for the bytes alone.
unfoldable pub buffer_add : Buffer → List ℕ → Outcome Buffer
buffer_add b bytes = elim b.data_block [
  | some block ↦ ok (record {
    data_block = some (take b.size block ++ bytes);
    size = (b.size + length bytes) % 2 ^ 64;
  })
  | none ↦
      if b.size == 0 then ok (record { data_block = some bytes; size = length bytes }) else fault
]

abbrev pub contents : Buffer → List ℕ
contents b = elim b.data_block [ none ↦ [] | some block ↦ block ]

-- `tolower` of the C locale.
unfoldable pub tolower : ℕ → ℕ
tolower c = if leb b'A' c && leb c b'Z' then c + 32 else c

-- The inner loop of the two searches: the bytes at a position against the pattern.
unfoldable pub matches_at : (same : ℕ → ℕ → Bool) → List ℕ → (pattern : List ℕ) → Bool
matches_at same xs [] = true
matches_at same [] (y ∷ ys) = false
matches_at same (x ∷ xs) (y ∷ ys) = same x y && matches_at same xs ys

-- The outer loop from position `i`, with `left` positions to go; `none` for `-1`.
unfoldable pub find_from :
    (same : ℕ → ℕ → Bool) → (left i : ℕ) → List ℕ → (pattern : List ℕ) → Option ℕ
find_from same zero i block pattern = none
find_from same (suc left) i block pattern =
    let rest = find_from same left (i + 1) block pattern in
    if matches_at same (drop i block) pattern then some i else rest

abbrev pub find_by : (same : ℕ → ℕ → Bool) → Buffer → (pattern : List ℕ) → Option ℕ
find_by same b pattern =
    if ltb b.size (length pattern)
    then none
    else find_from same (b.size - length pattern + 1) 0 (contents b) pattern

unfoldable pub buffer_find : Buffer → (pattern : List ℕ) → Option ℕ
buffer_find b pattern = find_by (λ x y. x == y) b pattern

unfoldable pub buffer_find_insensitive : Buffer → (pattern : List ℕ) → Option ℕ
buffer_find_insensitive b pattern = find_by (λ x y. tolower x == tolower y) b pattern
