-- ===== src/Library/Loop.antt =====
-- The loop of main of tema3/client.cpp.
use protocoale_de_comunicati.Common.{
  ℕ, zero, suc, none, Bool, true, false, List, [], ◌∷◌, ◌==◌, leb, length, if◌then◌else◌, codes,
  Outcome, ok, ◌>>=◌,
}
use protocoale_de_comunicati.Common.Maps.{str_eq}
use protocoale_de_comunicati.Library.{
  Json, State, free_stored_data, handle_auth, handle_logout, handle_enter_library, handle_get_books,
  handle_get_book, handle_add_book, handle_delete_book,
}

-- One of " \t\n\r\f\v".
unfoldable pub is_space : ℕ → Bool
is_space c = if c == 32 then true else if leb 9 c then leb c 13 else false

unfoldable pub trim_left : List ℕ → List ℕ
unfolding is_space
trim_left [] = []
trim_left (c ∷ cs) = let rest = trim_left cs in if is_space c then rest else c ∷ cs

unfoldable pub trim_right : List ℕ → List ℕ
unfolding is_space
trim_right [] = []
trim_right (c ∷ cs) =
    let rest = trim_right cs in
    elim rest [ [] ↦ if is_space c then [] else c ∷ [] | d ∷ ds ↦ c ∷ d ∷ ds ]

module _ {J : Type 0} (json : Json J) where
  -- What a line makes the client do.
  unfoldable pub command : (buffer : List ℕ) → State → Outcome State
  command buffer s =
      if str_eq buffer (codes "register")
      then handle_auth json buffer s
      else if str_eq buffer (codes "login")
      then handle_auth json buffer s
      else if str_eq buffer (codes "logout")
      then handle_logout json s
      else if str_eq buffer (codes "enter_library")
      then handle_enter_library json s
      else if str_eq buffer (codes "get_books")
      then handle_get_books json s
      else if str_eq buffer (codes "get_book")
      then handle_get_book json s
      else if str_eq buffer (codes "add_book")
      then handle_add_book json s
      else if str_eq buffer (codes "delete_book")
      then handle_delete_book json s
      else ok s

  -- The loop, on as much fuel as there are lines. `exit` ends the program as the end of the input
  -- does, once the data is freed.
  unfoldable pub run : (fuel : ℕ) → State → Outcome State
  unfolding trim_left trim_right command free_stored_data
  run zero s = ok s
  run (suc fuel) s = elim s.lines [
    | [] ↦ ok s
    | line ∷ lines ↦
        let buffer = trim_right (trim_left line) in
        let s1 : State = record s { lines = lines } in
        let rest = command buffer s1 >>= λ s'. run fuel s' in
        if str_eq buffer (codes "exit")
        then ok (record s1 { handler = free_stored_data s1.handler })
        else rest
  ]

  unfoldable pub main : (lines responses : List (List ℕ)) → Outcome State
  unfolding run
  main lines responses = run (length lines) (record {
    handler = record { cookies = none; token_access = none };
    sent = [];
    lines = lines;
    responses = responses;
  })
