-- ===== src/Chat.antt =====
-- The server of laboratoare/lab-08/server.c: it relays messages between its clients, with `select`.
-- What the calls return is a parameter.
pub mod Rounds
use protocoale_de_comunicati.Common.{
  ℕ, zero, suc, ◌+◌, ◌-◌, ◌%◌, ◌^◌, Bool, true, false, Option, none, some, List, [], ◌∷◌, ◌++◌, ltb,
  ◌==◌, if◌then◌else◌, length, Outcome, ok, exited, fault, ◌>>=◌,
}

-- `sockfd`, the set `read_fds`, and `fdmax`.
pub record Server : Type 0 where
  pub sockfd : ℕ
  pub read_fds : ℕ → Bool
  pub fdmax : ℕ

-- Before the loop, with the set that was emptied and `sockfd` put in.
unfoldable pub start : (sockfd : ℕ) → Server
start sockfd = record { sockfd = sockfd; read_fds = λ j. j == sockfd; fdmax = sockfd }

-- What the calls of one round return: the set that `select` leaves, the descriptor of `accept`, what
-- `recv` brings on each descriptor, `none` for an error of either, and whether `send` to a descriptor
-- fails.
pub record Round : Type 0 where
  pub tmp_fds : ℕ → Bool
  pub accepted : Option ℕ
  pub received : ℕ → Option (List ℕ)
  pub send_fails : ℕ → Bool

-- `buffer[0] - '0'` of a signed `char`, an `int` in two's complement.
unfoldable pub dest : ℕ → ℕ
dest c = if ltb c 128 then (c + 2 ^ 32 - 48) % 2 ^ 32 else (c + 2 ^ 32 - 304) % 2 ^ 32

unfoldable pub accept_client : Round → Server → Outcome (Server × List (ℕ × List ℕ))
accept_client r s = elim r.accepted [
  | none ↦ exited
  | some newsockfd ↦ ok (
    record s {
      read_fds = λ j. if j == newsockfd then true else s.read_fds j;
      fdmax = if ltb s.fdmax newsockfd then newsockfd else s.fdmax;
    },
    [],
  )
]

abbrev pub buflen : ℕ
buflen = 256

unfoldable pub has_nul : List ℕ → Bool
has_nul [] = false
has_nul (c ∷ cs) = let rest = has_nul cs in if c == 0 then true else rest

-- What `recv` brought on a client's descriptor, no more than `buflen` bytes. The server prints the buffer
-- and `buffer + 1` as strings: where the bytes fill the buffer and none behind the first is a NUL, it reads
-- past its end. It ends after a `send` that fails.
unfoldable pub serve_client :
    Round → (i : ℕ) → Server → (received : Option (List ℕ)) → Outcome (Server × List (ℕ × List ℕ))
unfolding has_nul
serve_client r i s none = exited
serve_client r i s (some []) =
    ok (record s { read_fds = λ j. if j == i then false else s.read_fds j }, [])
serve_client r i s (some (c ∷ cs)) =
    let sent : Outcome (Server × List (ℕ × List ℕ)) =
      if r.send_fails (dest c) then exited else ok (s, (dest c, c ∷ cs) ∷ []) in
    if ltb (length (c ∷ cs)) buflen then sent else if has_nul cs then sent else fault

-- The inner loop from descriptor `i`, with `left` to go: the server after it and what it sends. A
-- descriptor above the `fdmax` of the round's beginning is not in the set of `select`.
unfoldable pub scan : Round → (left i : ℕ) → Server → Outcome (Server × List (ℕ × List ℕ))
unfolding accept_client serve_client
scan r zero i s = ok (s, [])
scan r (suc left) i s =
    let here = if i == s.sockfd then accept_client r s else serve_client r i s (r.received i) in
    let step = if r.tmp_fds i then here else ok (s, []) in
    step >>= λ (s', sent). scan r left (i + 1) s' >>= λ (s'', later). ok (s'', sent ++ later)

-- A turn of the outer loop.
unfoldable pub round : Round → Server → Outcome (Server × List (ℕ × List ℕ))
unfolding scan
round r s = scan r (s.fdmax + 1) 0 s
