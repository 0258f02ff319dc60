-- ===== src/FileCopy.antt =====
-- The copying of files over a link of laboratoare/lab-02: send.c and recv.c of schelet lab2. What
-- `open`, `lseek` and `read` return at the sender is a parameter; what the programs print is left out.
-- The calls that send succeed.
pub mod Copies
use protocoale_de_comunicati.Common.{
  ℕ, zero, suc, ◌+◌, ◌-◌, ◌^◌, ◌/◌, ◌%◌, Bool, true, false, List, [], ◌∷◌, ◌++◌, ltb, ◌==◌,
  if◌then◌else◌, length, Memory, write_bytes, read_bytes, Outcome, ok, exited, fault, ◌>>=◌, codes,
}

abbrev pub max_len : ℕ
max_len = 1400

-- `msg`: a length, an `int` in two's complement, and a payload of `max_len` bytes.
pub record Msg : Type 0 where
  pub len : ℕ
  pub payload : Memory

-- A file that the sender is given: its name, what `lseek` returns for its end, and what `read` returns
-- until the end of the file.
pub record File : Type 0 where
  pub name : List ℕ
  pub size : ℕ
  pub reads : List (List ℕ)

-- An `off_t` or a `size_t` in an `int`.
abbrev pub int_of : ℕ → ℕ
int_of n = n % 2 ^ 32

-- What a program does on the link: a message that it sends, or a message that it waits for.
pub data Action : Type 0 where
  sends : Msg → Action
  waits : Action

-- `strcpy` into the payload.
unfoldable pub strcpy : Msg → List ℕ → Outcome Memory
strcpy t text =
    if ltb (length text) max_len then ok (write_bytes t.payload 0 (text ++ 0 ∷ [])) else fault

-- A message that is answered: it is sent, and `handle_response` waits.
abbrev pub asks : Msg → List Action
asks t = sends t ∷ waits ∷ []

-- The loop over the file. `t` keeps what earlier messages have left in its payload.
unfoldable pub send_content : Msg → List (List ℕ) → Msg × List Action
send_content t [] = (t, [])
send_content t (bytes ∷ reads) =
    let t' : Msg = record { len = length bytes; payload = write_bytes t.payload 0 bytes } in
    let (t'', later) = send_content t' reads in (t'', asks t' ++ later)

unfoldable pub send_file : Msg → File → Outcome (Msg × List Action)
unfolding strcpy send_content
send_file t f = strcpy t f.name >>= λ payload.
    let t1 : Msg = record { len = length f.name + 1; payload = payload } in
    let t2 : Msg = record {
      len = int_of f.size;
      payload = write_bytes payload 0 (codes "file size" ++ 0 ∷ []);
    } in
    let (t3, later) = send_content t2 f.reads in ok (t3, asks t1 ++ (asks t2 ++ later))

unfoldable pub send_files : Msg → List File → Outcome (List Action)
unfolding send_file
send_files t [] = ok []
send_files t (f ∷ fs) =
    send_file t f >>= λ (t', actions). send_files t' fs >>= λ later. ok (actions ++ later)

-- `main` of send.c; `stack` is what the payload holds at the beginning.
unfoldable pub send : (stack : Memory) → List File → Outcome (List Action)
unfolding send_files
send stack fs =
    let t : Msg = record {
      len = int_of (length fs);
      payload = write_bytes stack 0 (codes "number of files" ++ 0 ∷ []);
    } in
    send_files t fs >>= λ later. ok (sends t ∷ later)

-- The C string at an offset, with so many bytes to the end of the payload.
unfoldable pub text_at : (left : ℕ) → Memory → (at : ℕ) → Outcome (List ℕ)
text_at zero mem at = fault
text_at (suc left) mem at =
    let rest = text_at left mem (at + 1) in
    if mem at == 0 then ok [] else (rest >>= λ text. ok (mem at ∷ text))

-- A copy: its name, and what is written to it, one call after the other.
pub record Copy : Type 0 where
  pub copy_filename : List ℕ
  pub writes : List (List ℕ)

-- The number of messages of the content. For a negative size the quotient is cut towards 0, and a
-- `count` that is not positive stands for none: one message is left where the size is above `-max_len`.
unfoldable pub blocks : (size : ℕ) → ℕ
blocks size =
    let positive = if size % max_len == 0 then size / max_len else size / max_len + 1 in
    let negative = if ltb (2 ^ 32 - size) max_len then 1 else 0 in
    if ltb size (2 ^ 31) then positive else negative

-- The answer: `sprintf` of the text to the payload of the message that has come.
unfoldable pub ack : Msg → Msg
ack r = record { len = 4; payload = write_bytes r.payload 0 (codes "ACK" ++ 0 ∷ []) }

-- What comes of the content: what is written to the copy, what the receiver does on the link, and the
-- messages that are still to come.
pub record Content : Type 0 where
  pub writes : List (List ℕ)
  pub actions : List Action
  pub later : List Msg

-- A message is received, and answered.
abbrev pub answers : Msg → List Action
answers r = waits ∷ sends (ack r) ∷ []

-- The messages of the content. The end of the list stands for an error of `recv_message`.
unfoldable pub recv_content : (count : ℕ) → List Msg → Outcome Content
unfolding ack
recv_content zero ms = ok (record { writes = []; actions = []; later = ms })
recv_content (suc count) [] = exited
recv_content (suc count) (r ∷ ms) =
    let rest = recv_content count ms in
    if ltb max_len r.len
    then fault
    else (rest >>= λ c. ok (record {
      writes = read_bytes r.payload 0 r.len ∷ c.writes;
      actions = answers r ++ c.actions;
      later = c.later;
    }))

-- A copy, what the receiver does on the link for it, and the messages that are still to come.
pub record Received : Type 0 where
  pub copy : Copy
  pub actions : List Action
  pub later : List Msg

-- The array that the name is copied into has 32 bytes.
unfoldable pub recv_file : List Msg → Outcome Received
unfolding text_at blocks recv_content ack
recv_file [] = exited
recv_file (r ∷ []) =
    text_at max_len r.payload 0 >>= λ name. if ltb (length name) 32 then exited else fault
recv_file (r ∷ r' ∷ ms) = text_at max_len r.payload 0 >>= λ name.
    if ltb (length name) 32
    then (recv_content (blocks r'.len) ms >>= λ c. ok (record {
      copy = record { copy_filename = codes "copy_" ++ name; writes = c.writes };
      actions = answers r ++ (answers r' ++ c.actions);
      later = c.later;
    }))
    else fault

-- The copies, and what the receiver does on the link.
unfoldable pub recv_files : (files_number : ℕ) → List Msg → Outcome (List Copy × List Action)
unfolding recv_file
recv_files zero ms = ok ([], [])
recv_files (suc n) ms = recv_file ms >>= λ one.
    recv_files n one.later >>= λ (copies, actions). ok (one.copy ∷ copies, one.actions ++ actions)

-- `main` of recv.c. No file comes of a number that is negative.
unfoldable pub recv : List Msg → Outcome (List Copy × List Action)
unfolding recv_files
recv [] = exited
recv (r ∷ ms) =
    let files_number : ℕ = if ltb r.len (2 ^ 31) then r.len else 0 in
    recv_files files_number ms >>= λ (copies, actions). ok (copies, waits ∷ actions)
