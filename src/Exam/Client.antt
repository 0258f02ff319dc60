-- ===== src/Exam/Client.antt =====
-- The client of test_practic: test_practic/client.cpp. What `getline`, `recv` and `send` return is a
-- parameter.
use protocoale_de_comunicati.Common.{
  ℕ, ◌/◌, ◌%◌, ◌^◌, Bool, Option, none, some, List, [], ◌∷◌, ◌++◌, ltb, ◌==◌, if◌then◌else◌, length,
  take, drop, Outcome, ok, exited, fault, ◌>>=◌, codes,
}
use protocoale_de_comunicati.Common.Maps.{str_eq}
use protocoale_de_comunicati.Http.Client.{strtol, int_of_long}
use protocoale_de_comunicati.Subscriber.{strtok, padded, c_text, space}

-- The line once `strtok` has put a NUL in place of the first space behind the token.
unfoldable pub end_token : List ℕ → List ℕ
end_token [] = []
end_token (c ∷ cs) = let rest = end_token cs in if c == 32 then 0 ∷ cs else c ∷ rest

unfoldable pub cut : List ℕ → List ℕ
unfolding end_token
cut [] = []
cut (c ∷ cs) = let rest = cut cs in if c == 32 then c ∷ rest else end_token (c ∷ cs)

unfoldable pub le32 : ℕ → List ℕ
le32 n = (n % 256) ∷ (n / 256 % 256) ∷ (n / 2 ^ 16 % 256) ∷ (n / 2 ^ 24 % 256) ∷ []

-- A `message` of 56 bytes. A text of more than 50 characters is written outside its array.
unfoldable pub message : (nr_dest : ℕ) → (text : List ℕ) → Outcome (List ℕ)
unfolding le32 padded
message nr_dest text = if ltb 50 (length text) then fault else ok (le32 nr_dest ++ padded 52 text)

-- The text is read from the seventh character of the line on, whatever the length of the number.
unfoldable pub command_msg : (line : List ℕ) → Outcome (List ℕ)
unfolding cut message
command_msg line = if ltb (length line) 6 then fault else elim (strtok space (drop 4 line)) [
  | none ↦ fault
  | some (nr, _) ↦
      strtol (nr ++ 0 ∷ []) >>= λ v. message (int_of_long v) (c_text (drop 2 (cut (drop 4 line))))
]

-- What is sent, if anything.
unfoldable pub handle_stdin_message : (send_fails : Bool) → (line : List ℕ) → Outcome (List ℕ)
unfolding str_eq command_msg message
handle_stdin_message send_fails line =
    if str_eq line (codes "exit")
    then exited
    else if str_eq (take 3 line) (codes "MSG")
    then (command_msg line >>= λ bytes. if send_fails then exited else ok bytes)
    else if str_eq (take 4 line) (codes "LIST")
    then (message 0xffffffff (codes "LIST") >>= λ bytes. if send_fails then exited else ok bytes)
    else ok []

-- What is printed; the program ends with the connection.
unfoldable pub handle_server_message : (received : Option (List ℕ)) → Outcome (List ℕ)
handle_server_message none = exited
handle_server_message (some []) = exited
handle_server_message (some (c ∷ cs)) = ok (c_text (c ∷ cs) ++ codes "\n")
