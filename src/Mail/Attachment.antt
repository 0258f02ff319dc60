-- ===== src/Mail/Attachment.antt =====
-- The attachment of laboratoare/lab-11/send_mail.c in its buffer of 500 bytes.
use protocoale_de_comunicati.Common.{
  ℕ, ◌+◌, ◌<◌, ◌≡◌, ◌≢◌, false, List, [], ◌∷◌, length, take, drop, Bool, ltb, if◌then◌else◌,
}
use protocoale_de_comunicati.Mail.{mail_headers, print_all}

-- What stands in the buffer before the file does.
abbrev pub prologue : (fine_name : List ℕ) → List ℕ
prologue fine_name = print_all [] (mail_headers fine_name)

-- What `fread` returns of a file: 200 bytes, or what is left.
abbrev pub AreChunks : (file : List ℕ) → (chunks : List (List ℕ)) → Type 0
AreChunks file [] = file ≡ []
AreChunks file (b ∷ bs) = (b ≡ take 200 file) × (0 < length b) × AreChunks (drop 200 file) bs

abbrev pub HasNoNul : List ℕ → Type 0
HasNoNul [] = Unit
HasNoNul (c ∷ cs) = (c ≢ 0) × HasNoNul cs

abbrev pub fits : (fine_name file : List ℕ) → Bool
fits fine_name file =
    if ltb (length file) 200 then ltb (295 + length fine_name + length file) 500 else false
