-- ===== src/Http/Client.antt =====
-- laboratoare/lab-10/helpers.c: a message sent and a response received over a socket. What the calls
-- of `write` and `read` return is a parameter.
pub mod Ends
pub mod Chunks
pub mod Sending
use protocoale_de_comunicati.Common.{
  ℕ, zero, suc, ◌+◌, ◌-◌, ◌*◌, ◌%◌, ◌^◌, min, Bool, true, false, ◌&&◌, ◌||◌, Option, none, some,
  List, [], ◌∷◌, ◌++◌, length, take, drop, leb, ltb, ◌==◌, if◌then◌else◌, codes, Outcome, ok,
  exited, fault, ◌>>=◌,
}
use protocoale_de_comunicati.Http.Buffer.{
  Buffer, buffer_init, buffer_add, contents, buffer_find, buffer_find_insensitive,
}

-- `send_to_server` from `sent` bytes on: the bytes that `write` takes. `write k n` is what the call
-- number `k` returns for `n` bytes, `none` an error. A fault stands for fuel that is used up.
unfoldable pub send_from :
    (write : ℕ → ℕ → Option ℕ)
    → (fuel k : ℕ) → (message : List ℕ) → (total sent : ℕ) → Outcome (List ℕ)
send_from write zero k message total sent = fault
send_from write (suc fuel) k message total sent = elim (write k (total - sent)) [
  | none ↦ exited
  | some bytes ↦
      let rest = send_from write fuel (k + 1) message total (sent + bytes) in
      if bytes == 0
      then ok []
      else if ltb (sent + bytes) total
      then (rest >>= λ more. ok (take bytes (drop sent message) ++ more))
      else ok (take bytes (drop sent message))
]

-- `total` is an `int`: the length of the message modulo 2 ^ 32, and where that is negative, `write` is
-- given as many bytes as a `size_t` makes of it, far behind the message.
unfoldable pub send_to_server : (write : ℕ → ℕ → Option ℕ) → (message : List ℕ) → Outcome (List ℕ)
unfolding send_from
send_to_server write message =
    let total : ℕ = length message % 2 ^ 32 in
    let sent : Outcome (List ℕ) = send_from write (suc total) 0 message total 0 in
    if ltb total (2 ^ 31) then sent else fault

abbrev pub header_terminator : List ℕ
header_terminator = 13 ∷ 10 ∷ 13 ∷ 10 ∷ []

abbrev pub content_length_field : List ℕ
content_length_field = codes "Content-Length: "

-- `isspace` and `isdigit` of the C locale.
abbrev pub is_space : ℕ → Bool
is_space c = c == 32 || (leb 9 c && leb c 13)

abbrev pub is_digit : ℕ → Bool
is_digit c = leb 48 c && leb c 57

-- `strtol` in base 10, on the block from the place that it is given: the block has no NUL at its end,
-- so digits up to its end are a read outside it. Values above `LONG_MAX` are cut to it, and a
-- negative value stands in two's complement of 64 bits.
unfoldable pub digits : List ℕ → (value : ℕ) → Outcome ℕ
digits [] value = fault
digits (c ∷ cs) value =
    let rest = digits cs (value * 10 + (c - 48)) in
    if is_digit c then rest else ok (min value (2 ^ 63 - 1))

unfoldable pub signed_digits : List ℕ → Outcome ℕ
signed_digits [] = fault
signed_digits (c ∷ cs) =
    if c == b'-'
    then (digits cs 0 >>= λ v. ok ((2 ^ 64 - v) % 2 ^ 64))
    else if c == b'+'
    then digits cs 0
    else digits (c ∷ cs) 0

unfoldable pub strtol : List ℕ → Outcome ℕ
strtol [] = fault
strtol (c ∷ cs) = let rest = strtol cs in if is_space c then rest else signed_digits (c ∷ cs)

-- A `long` in an `int`, and an `int` in a `size_t`.
abbrev pub int_of_long : ℕ → ℕ
int_of_long v = v % 2 ^ 32

abbrev pub size_of_int : ℕ → ℕ
size_of_int v = if ltb v (2 ^ 31) then v else v + 2 ^ 64 - 2 ^ 32

-- The first loop of `receive_from_server`, on what the calls of `read` return: `none` an error, no
-- bytes the end of the stream, which is the end of the list too. `header_end` and `content_length`
-- are `int`s. The result is the buffer, the two, and what the later calls of `read` return.
unfoldable pub receive_header :
    List (Option (List ℕ))
    → Buffer
    → (header_end content_length : ℕ) → Outcome (Buffer × ℕ × ℕ × List (Option (List ℕ)))
receive_header [] b header_end content_length = ok (b, header_end, content_length, [])
receive_header (none ∷ reads) b header_end content_length = exited
receive_header (some [] ∷ reads) b header_end content_length =
    ok (b, header_end, content_length, [])
receive_header (some (c ∷ cs) ∷ reads) b header_end content_length = buffer_add b (c ∷ cs) >>= λ b'.
    elim (buffer_find b' header_terminator) [
      | none ↦ receive_header reads b' (2 ^ 32 - 1) content_length
      | some at ↦ elim (buffer_find_insensitive b' content_length_field) [
        | none ↦ receive_header reads b' (int_of_long (at + 4)) content_length
        | some start ↦ strtol (drop (start + 16) (contents b')) >>= λ v.
            ok (b', int_of_long (at + 4), int_of_long v, reads)
      ]
    ]

-- The second loop, up to `total` bytes.
unfoldable pub receive_body :
    List (Option (List ℕ)) → Buffer → (total : ℕ) → Outcome (Buffer × List (Option (List ℕ)))
receive_body [] b total = ok (b, [])
receive_body (none ∷ reads) b total = if ltb b.size total then exited else ok (b, none ∷ reads)
receive_body (some [] ∷ reads) b total =
    if ltb b.size total then ok (b, []) else ok (b, some [] ∷ reads)
receive_body (some (c ∷ cs) ∷ reads) b total =
    let rest = buffer_add b (c ∷ cs) >>= λ b'. receive_body reads b' total in
    if ltb b.size total then rest else ok (b, some (c ∷ cs) ∷ reads)

-- The response with a NUL behind it, and what is left unread.
unfoldable pub receive_from_server :
    List (Option (List ℕ)) → Outcome (List ℕ × List (Option (List ℕ)))
unfolding buffer_init
receive_from_server reads =
    receive_header reads buffer_init 0 0 >>= λ (b, header_end, content_length, later).
    receive_body later b ((size_of_int content_length + size_of_int header_end) % 2 ^ 64)
    >>= λ (b', unread). buffer_add b' (0 ∷ []) >>= λ b''. ok (contents b'', unread)
