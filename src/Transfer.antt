-- ===== src/Transfer.antt =====
-- laboratoare/lab-03/send.c and recv.c: frames with a checksum, sent within a window.
pub mod Flips
pub mod Window
use protocoale_de_comunicati.Common.{
  ℕ, zero, suc, ◌+◌, ◌-◌, ◌*◌, ◌/◌, ◌%◌, ◌^◌, Bool, true, false, ◌&&◌, Option, none, some, List, [],
  ◌∷◌, Memory, xor, write_bytes, ◌==◌, if◌then◌else◌,
}
use protocoale_de_comunicati.Link.Channel.{Msg, msgsize}

-- The loop of `checksum` from byte `i`, with `n` bytes to go.
unfoldable pub checksum_from : (payload : Memory) → (i n : ℕ) → (result : ℕ) → ℕ
checksum_from p i zero result = result
checksum_from p i (suc n) result = checksum_from p (i + 1) n (xor 8 result (p i))

-- The same function in both files, on bytes; the last byte is not summed.
unfoldable pub checksum : Memory → ℕ
checksum p = checksum_from p 2 (msgsize - 1 - 2) (xor 8 (p 0) (p 1))

-- An empty message with its checksum, as `main` of send.c builds it after `memset`.
unfoldable pub frame : Msg
frame = record { len = msgsize; payload = λ i. if i == msgsize - 1 then checksum (λ j. 0) else 0 }

abbrev pub ack : List ℕ
ack = 65 ∷ 67 ∷ 75 ∷ []

abbrev pub nack : List ℕ
nack = 78 ∷ 65 ∷ 67 ∷ 75 ∷ []

-- `!strcmp(payload, s)`, from byte `i`.
unfoldable pub is_string : Memory → (i : ℕ) → List ℕ → Bool
is_string p i [] = p i == 0
is_string p i (b ∷ bs) = p i == b && is_string p (i + 1) bs

-- The comparison that recv.c makes.
unfoldable pub is_intact : Msg → Bool
is_intact r = r.payload (msgsize - 1) == checksum r.payload

abbrev pub string_bytes : List ℕ → List ℕ
string_bytes [] = 0 ∷ []
string_bytes (b ∷ bs) = b ∷ string_bytes bs

-- What `main` of recv.c answers to a message: the message with its beginning overwritten.
unfoldable pub respond : Msg → Msg
respond r = record r {
  payload = write_bytes r.payload 0 (string_bytes (if is_intact r then ack else nack));
}

-- The counters of `main` of send.c; `in_queue` is an `int` in two's complement.
pub record Sender : Type 0 where
  pub acks : ℕ
  pub nacks : ℕ
  pub in_queue : ℕ
  pub sent : ℕ

unfoldable pub handle_response : (response : Memory) → Sender → Sender
handle_response response s =
    if is_string response 0 nack
    then record s { nacks = s.nacks + 1 }
    else if is_string response 0 ack
    then record s { acks = s.acks + 1 }
    else s

-- How far `main` comes: further, to `return -1`, or to a `recv_message` to which nothing comes.
pub data Progress (A : Type 0) : Type 0 where
  going : A → Progress A
  failed : Progress A
  blocked : Progress A

infixl 5 ◌>>=◌
abbrev pub ◌>>=◌ : {A B : Type 0} → Progress A → (A → Progress B) → Progress B
going a >>= f = f a
failed >>= f = failed
blocked >>= f = blocked

-- A frame sent; `send_fails` says of each frame by its number whether `send_message` fails.
unfoldable pub send_frame : (send_fails : ℕ → Bool) → Sender → Progress Sender
send_frame send_fails s =
    if send_fails s.sent
    then failed
    else going (record s { in_queue = (s.in_queue + 1) % 2 ^ 32; sent = s.sent + 1 })

-- A response taken; `none` stands for a failed `recv_message`.
unfoldable pub take_response :
    List (Option Memory) → Sender → Progress (List (Option Memory) × Sender)
take_response [] s = blocked
take_response (none ∷ rs) s = failed
take_response (some r ∷ rs) s =
    going (rs, handle_response r (record s { in_queue = (s.in_queue + 2 ^ 32 - 1) % 2 ^ 32 }))

-- The three loops of `main`.
unfoldable pub fill : (send_fails : ℕ → Bool) → (n : ℕ) → Sender → Progress Sender
fill send_fails zero s = going s
fill send_fails (suc n) s = send_frame send_fails s >>= fill send_fails n

unfoldable pub slide :
    (send_fails : ℕ → Bool)
    → (n : ℕ) → List (Option Memory)
    → Sender
    → Progress (List (Option Memory) × Sender)
slide send_fails zero rs s = going (rs, s)
slide send_fails (suc n) rs s = take_response rs s >>= λ (rs', s').
    send_frame send_fails s' >>= λ s''. slide send_fails n rs' s''

unfoldable pub drain :
    (n : ℕ) → List (Option Memory) → Sender → Progress (List (Option Memory) × Sender)
drain zero rs s = going (rs, s)
drain (suc n) rs s = take_response rs s >>= λ (rs', s'). drain n rs' s'

abbrev pub count : ℕ
count = 100

-- `main` of send.c with a window that is no negative number; a window above `count` leaves the second
-- loop out.
unfoldable pub main :
    (send_fails : ℕ → Bool)
    → (window_size : ℕ) → List (Option Memory)
    → Progress (List (Option Memory) × Sender)
main send_fails window rs =
    fill send_fails window (record { acks = 0; nacks = 0; in_queue = 0; sent = 0 }) >>= λ s.
    slide send_fails (count - window) rs s >>= λ (rs', s'). drain window rs' s'
