-- ===== src/Library/Enough.antt =====
-- The loop of tema3/client.cpp takes no more steps than there are lines.
use protocoale_de_comunicati.Common.{
  ℕ, ◌≤◌, arith, List, [], ◌∷◌, length, Outcome, ◌>>=◌, Whenever, Whenever-bind, Whenever-all,
}
use protocoale_de_comunicati.Library.{Handler, State, getline, exchange}

abbrev IsWithin : ℕ → State → Type 0
IsWithin n s = length s.lines ≤ n

-- What is left of the lines, if the code returns.
record Keeps (n : ℕ) (o : Outcome State) : Type 0 where
  kept : Whenever (IsWithin n) o

after {ℓ} :
    {A : Type ℓ} (n : ℕ) (o : Outcome A) (f : A → Outcome State)
    → ((a : A) → Keeps n (f a))
    → Keeps n (o >>= f)
after n o f next = record {
  kept =
      Whenever-bind (λ _. Unit) (IsWithin n) o f (Whenever-all (λ _. Unit) o (λ a. tt))
        λ a u. (next a).kept;
}

-- A line read is one line less; an exchange leaves the lines.
read_line :
    (n : ℕ) (h : Handler) (sent ls rs : List (List ℕ))
    → length ls ≤ n
    → IsWithin n (getline (record { handler = h; sent = sent; lines = ls; responses = rs })).1
unfolding getline
read_line n h sent [] rs v = v
read_line n h sent (l ∷ ls) rs v = omega (arith, v)

answered :
    (n : ℕ) (h : Handler) (sent ls rs : List (List ℕ)) (message : List ℕ)
    (f : List ℕ × State → Outcome State)
    → length ls ≤ n
    → ((response : List ℕ) (s' : State) → IsWithin n s' → Keeps n (f (response, s')))
    → Keeps n
        (exchange (record { handler = h; sent = sent; lines = ls; responses = rs }) message >>= f)
unfolding exchange
answered n h sent ls [] message f v next = record { kept = tt }
answered n h sent ls (r ∷ rs) message f v next = next r _ v
