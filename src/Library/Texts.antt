-- ===== src/Library/Texts.antt =====
-- What the client of tema3 finds in the texts of responses.
use protocoale_de_comunicati.Common.{
  ℕ, Option, none, some, Bool, true, false, List, [], ◌∷◌, ◌==◌, if◌then◌else◌, drop, codes,
  Outcome, ok, fault, ◌>>=◌,
}

-- `strncmp(start, text, strlen(text)) == 0` on bytes that end with a NUL.
unfoldable pub begins_with : (text start : List ℕ) → Bool
begins_with [] start = true
begins_with (c ∷ text) [] = false
begins_with (c ∷ text) (b ∷ start) =
    let rest = begins_with text start in if c == b then rest else false

-- The bytes before the first `;`.
unfoldable pub before_semicolon : List ℕ → Outcome (List ℕ)
before_semicolon [] = fault
before_semicolon (c ∷ cs) =
    let rest = before_semicolon cs in if c == 59 then ok [] else (rest >>= λ r. ok (c ∷ r))

-- `take_cookie`, which does not stop at the end of the string.
unfoldable pub take_cookie : List ℕ → Outcome (List ℕ)
unfolding begins_with before_semicolon
take_cookie [] = fault
take_cookie (c ∷ response) =
    let rest = take_cookie response in
    if begins_with (codes "Set-Cookie: ") (c ∷ response)
    then before_semicolon (drop 12 (c ∷ response))
    else rest

-- `strstr` of one character.
unfoldable pub strstr : List ℕ → (c : ℕ) → Option (List ℕ)
strstr [] c = none
strstr (b ∷ bs) c = let rest = strstr bs c in if b == c then some (b ∷ bs) else rest

-- `*fine = '\0'` for the first newline from the start.
unfoldable pub end_line : List ℕ → Outcome (List ℕ)
end_line [] = fault
end_line (b ∷ bs) =
    let rest = end_line bs in if b == 10 then ok (0 ∷ bs) else (rest >>= λ r. ok (b ∷ r))

-- The same for the first newline behind the first space: the line that is printed.
unfoldable pub status_line : (response : List ℕ) → Outcome (List ℕ)
unfolding end_line
status_line [] = fault
status_line (b ∷ bs) =
    let rest = status_line bs in if b == 32 then end_line (b ∷ bs) else (rest >>= λ r. ok (b ∷ r))

-- What a C string is copied as.
unfoldable pub c_text : List ℕ → List ℕ
c_text [] = []
c_text (b ∷ bs) = let rest = c_text bs in if b == 0 then [] else b ∷ rest

-- `strdup` of a text without its first byte, and the last byte of that taken off.
unfoldable pub unquoted : List ℕ → Outcome (List ℕ)
unquoted [] = fault
unquoted (q ∷ []) = fault
unquoted (q ∷ c ∷ []) = ok []
unquoted (q ∷ c ∷ d ∷ cs) = unquoted (c ∷ d ∷ cs) >>= λ r. ok (c ∷ r)
