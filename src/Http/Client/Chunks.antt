-- ===== src/Http/Client/Chunks.antt =====
-- `receive_from_server` of laboratoare/lab-10/helpers.c, however the response is cut into reads.
use protocoale_de_comunicati.Common.{
  ℕ, ◌+◌, ◌%◌, ◌<◌, ◌≤◌, ◌^◌, ◌≡◌, ◌⊎◌, Option, none, some, List, [], ◌∷◌, ◌++◌, length, drop, ok,
  fault,
}
use protocoale_de_comunicati.Http.Buffer.{Buffer, contents, buffer_find, buffer_find_insensitive}
use protocoale_de_comunicati.Http.Buffer.Find.{IsBuffer}
use protocoale_de_comunicati.Http.Client.Ends.{Ends}
use protocoale_de_comunicati.Http.Client.{
  header_terminator, content_length_field, strtol, int_of_long, size_of_int,
}

abbrev pub Reads : Type 0
Reads = List (Option (List ℕ))

-- The bytes that the calls of `read` bring, up to the end of the stream or an error.
abbrev pub stream : Reads → List ℕ
stream [] = []
stream (none ∷ reads) = []
stream (some [] ∷ reads) = []
stream (some (c ∷ cs) ∷ reads) = (c ∷ cs) ++ stream reads

-- The buffer holds what has come, with what is still to come.
abbrev pub IsOf : List ℕ → Buffer → Reads → Type 0
IsOf whole b reads = IsBuffer b × (contents b ++ stream reads ≡ whole) × (length whole + 1 < 2 ^ 64)

-- One of the reads before the end of the stream is an error.
abbrev pub HasError : Reads → Type 0
HasError [] = ⊥
HasError (none ∷ reads) = Unit
HasError (some [] ∷ reads) = ⊥
HasError (some (c ∷ cs) ∷ reads) = HasError reads

-- A prefix of the bytes has a header that ends at `at` and a length field behind which is `start`.
pub record IsHeader (bytes : List ℕ) (b : Buffer) (at start : ℕ) : Type 0 where
  pub more : List ℕ
  pub prefix : contents b ++ more ≡ bytes
  pub ends : buffer_find b header_terminator ≡ some at
  pub field : buffer_find_insensitive b content_length_field ≡ some start

abbrev pub length_text : Buffer → (start : ℕ) → List ℕ
length_text b start = drop (start + 16) (contents b)

abbrev pub total_of : (at value : ℕ) → ℕ
total_of at value = (size_of_int (int_of_long value) + size_of_int (int_of_long (at + 4))) % 2 ^ 64

-- All that the response has: the stream has ended, or the header and as many bytes as it says.
abbrev pub IsComplete : (body : List ℕ) → (unread : Reads) → Type 0
IsComplete body unread =
    (stream unread ≡ [])
    ⊎ ((b : Buffer) × (at : ℕ) × (start : ℕ) × (value : ℕ) × IsHeader body b at start
        × (strtol (length_text b start) ≡ ok value)
        × (total_of at value ≤ length body))

-- The digits of the length reach to the end of what has come.
abbrev pub HasOpenLength : (bytes : List ℕ) → Type 0
HasOpenLength bytes =
    (b : Buffer) × (at : ℕ) × (start : ℕ) × IsHeader bytes b at start
    × (strtol (length_text b start) ≡ fault)

-- What the first loop leaves: the stream has ended, or a header with its two numbers is in the buffer.
abbrev IsRead : Buffer → (header_end content_length : ℕ) → Reads → Type 0
IsRead b he cl later =
    (stream later ≡ [])
    ⊎ ((at : ℕ) × (start : ℕ) × (value : ℕ) × (buffer_find b header_terminator ≡ some at)
        × (buffer_find_insensitive b content_length_field ≡ some start)
        × (strtol (length_text b start) ≡ ok value)
        × (he ≡ int_of_long (at + 4))
        × (cl ≡ int_of_long value))

module _ (whole : List ℕ) (E : Type 0) where
  abbrev After : Buffer × ℕ × ℕ × Reads → Type 0
  After (b, he, cl, later) = IsOf whole b later × IsRead b he cl later × (HasError later → E)

  -- The second loop leaves a buffer that goes on from the one that it got.
  abbrev Done : Buffer → (total : ℕ) → Buffer × Reads → Type 0
  Done b total (b', unread) =
      IsOf whole b' unread
      × ((more : List ℕ) × (contents b ++ more ≡ contents b'))
      × ((stream unread ≡ []) ⊎ (total ≤ b'.size))

-- What `receive_from_server` returns: the bytes of the stream from the beginning, complete, and a NUL.
abbrev pub IsResponse : Reads → List ℕ × Reads → Type 0
IsResponse reads (response, unread) =
    (body : List ℕ) × (response ≡ body ++ (0 ∷ []))
    × (body ++ stream unread ≡ stream reads)
    × IsComplete body unread
