-- ===== src/FileCopy/Copies.antt =====
-- The sender and the receiver of laboratoare/lab-02 together.
use protocoale_de_comunicati.Common.{
  ℕ, zero, suc, ◌+◌, ◌/◌, ◌%◌, ◌^◌, if◌then◌else◌, ◌≤◌, ◌<◌, ◌≡◌, refl, ◌∙◌, true, false, List, [],
  ◌∷◌, ◌++◌, ltb, lt→ltb, ◌==◌, arith, length, Memory, store, write_bytes, read_bytes, ok, ◌>>=◌,
  codes, Returns, Returns-bind,
}
use protocoale_de_comunicati.Subscriber.Id.{HasNoNul}
use protocoale_de_comunicati.FileCopy.{
  Msg, File, Action, Copy, sends, waits, strcpy, send_content, send_file, send_files, send, text_at,
  blocks, int_of, ack, answers, recv_content, recv_file, recv_files, recv, max_len,
}

write_bytes-before :
    (mem : Memory) (at j : ℕ) (bs : List ℕ) → j < at → write_bytes mem at bs j ≡ mem j
write_bytes-before mem at j [] lt = refl
write_bytes-before mem at j (b ∷ bs) lt =
    write_bytes-before (store mem at b) (at + 1) j bs (omega arith) ∙ ground arith

read_bytes-write_bytes :
    (mem : Memory) (at : ℕ) (bs : List ℕ) → read_bytes (write_bytes mem at bs) at (length bs) ≡ bs
read_bytes-write_bytes mem at [] = refl
read_bytes-write_bytes mem at (b ∷ bs) =
    let here : write_bytes (store mem at b) (at + 1) bs at ≡ b =
      write_bytes-before (store mem at b) (at + 1) at bs (omega arith) ∙ ground arith in
    rw (here, read_bytes-write_bytes (store mem at b) (at + 1) bs) refl

text_at-write_bytes :
    (left : ℕ) (mem : Memory) (at : ℕ) (text : List ℕ)
    → HasNoNul text
    → length text < left
    → text_at left (write_bytes mem at (text ++ 0 ∷ [])) at ≡ ok text
unfolding text_at
text_at-write_bytes zero mem at text n lt = absurd (omega arith)
text_at-write_bytes (suc left) mem at [] n lt =
    let here : store mem at 0 at ≡ 0 = ground arith in rw here refl
text_at-write_bytes (suc left) mem at (c ∷ cs) (n, ns) lt =
    let mem' : Memory = store mem at c in
    let here : write_bytes mem' (at + 1) (cs ++ 0 ∷ []) at ≡ c =
      write_bytes-before mem' (at + 1) at (cs ++ 0 ∷ []) (omega arith) ∙ ground arith in
    let more : (c == 0) ≡ false = ground arith in
    rw (here, more, text_at-write_bytes left mem' (at + 1) cs ns (omega arith)) refl

-- The messages that go over the link.
abbrev pub messages : List Action → List Msg
messages [] = []
messages (sends m ∷ actions) = m ∷ messages actions
messages (waits ∷ actions) = messages actions

abbrev pub IsAck : Msg → Type 0
IsAck a = (a.len ≡ 4) × (read_bytes a.payload 0 4 ≡ codes "ACK" ++ 0 ∷ [])

-- The two programs in step: each waits for a message exactly where the other one sends it, and what the
-- second one sends are ACKs.
abbrev pub AreInStep : (sender receiver : List Action) → Type 0
AreInStep [] [] = Unit
AreInStep (sends m ∷ ss) (waits ∷ rs) = AreInStep ss rs
AreInStep (waits ∷ ss) (sends a ∷ rs) = IsAck a × AreInStep ss rs
AreInStep [] (r ∷ rs) = ⊥
AreInStep (s ∷ ss) [] = ⊥
AreInStep (sends m ∷ ss) (sends a ∷ rs) = ⊥
AreInStep (waits ∷ ss) (waits ∷ rs) = ⊥

ack-IsAck : (r : Msg) → IsAck (ack r)
unfolding ack
ack-IsAck r = (refl, refl)

-- A regular file gives `max_len` bytes to each `read` but the last, which gives some.
abbrev pub AreReads : (size : ℕ) → List (List ℕ) → Type 0
AreReads size [] = size ≡ 0
AreReads size (b ∷ []) = (size ≡ length b) × (0 < length b) × (length b ≤ max_len)
AreReads size (b ∷ c ∷ bs) =
    (length b ≡ max_len) × ((rest : ℕ) × (size ≡ max_len + rest) × AreReads rest (c ∷ bs))

-- The receiver counts as many messages of the content as the sender sends.
quotient-AreReads :
    (size : ℕ) (reads : List (List ℕ))
    → AreReads size reads
    → (if size % max_len == 0 then size / max_len else size / max_len + 1) ≡ length reads
quotient-AreReads size [] e = rw e refl
quotient-AreReads size (b ∷ []) (e, pos, le) = ground arith
quotient-AreReads size (b ∷ c ∷ bs) (full, (rest, e, more)) =
    let ih = quotient-AreReads rest (c ∷ bs) more in ground (arith, ih)

blocks-AreReads :
    (size : ℕ) (reads : List (List ℕ))
    → size < 2 ^ 31
    → AreReads size reads
    → blocks (int_of size) ≡ length reads
unfolding blocks
blocks-AreReads size reads small a =
    let same : int_of size ≡ size = omega arith in
    let positive : ltb size (2 ^ 31) ≡ true = lt→ltb size (2 ^ 31) small in
    rw (same, positive) (quotient-AreReads size reads a)

short_reads :
    (size : ℕ) (b : List ℕ) (bs : List (List ℕ))
    → AreReads size (b ∷ bs)
    → (length b ≤ max_len) × ((rest : ℕ) × AreReads rest bs)
short_reads size b [] (e, pos, le) = (le, (0, refl))
short_reads size b (c ∷ bs) (full, (rest, e, more)) = (omega arith, (rest, more))

-- What the receiver makes of the content, whatever the sender does after it.
send_content-recv_content :
    (t : Msg) (size : ℕ) (reads : List (List ℕ)) (later : List Action)
    → AreReads size reads
    → let sent = (send_content t reads).1 ++ later in
      (rs : List Action) × (recv_content (length reads) (messages sent)
        ≡ ok (record { writes = reads; actions = rs; later = messages later }))
      × ((next : List Action) → AreInStep later next → AreInStep sent (rs ++ next))
unfolding send_content recv_content
send_content-recv_content t size [] later a = ([], refl, λ next s. s)
send_content-recv_content t size (b ∷ bs) later a =
    let (short, (rest, more)) = short_reads size b bs a in
    let t' : Msg = record { len = length b; payload = write_bytes t.payload 0 b } in
    let (rs, received, in_step) = send_content-recv_content t' rest bs later more in
    let fits : ltb max_len (length b) ≡ false = ground arith in
    (
      answers t' ++ rs,
      rw (fits, received, read_bytes-write_bytes t.payload 0 b) refl,
      λ next s. (ack-IsAck t', in_step next s),
    )

-- A file that is copied: a name of up to 31 characters, a size of fewer than 2 ^ 31 bytes, and what
-- `read` returns on a regular file.
pub record IsCopied (f : File) : Type 0 where
  pub name_ends : HasNoNul f.name
  pub name_short : length f.name < 32
  pub size_small : f.size < 2 ^ 31
  pub regular : AreReads f.size f.reads

abbrev pub copy_of : File → Copy
copy_of f = record { copy_filename = codes "copy_" ++ f.name; writes = f.reads }

recv_file_lem :
    (name_is size_is : Msg) (ms ms' : List Msg) (name : List ℕ) (writes : List (List ℕ))
    (rs : List Action)
    → text_at max_len name_is.payload 0 ≡ ok name
    → length name < 32
    → recv_content (blocks size_is.len) ms
      ≡ ok (record { writes = writes; actions = rs; later = ms' })
    → recv_file (name_is ∷ size_is ∷ ms)
      ≡ ok (record {
        copy = record { copy_filename = codes "copy_" ++ name; writes = writes };
        actions = answers name_is ++ (answers size_is ++ rs);
        later = ms';
      })
unfolding recv_file
recv_file_lem name_is size_is ms ms' name writes rs read lt received =
    let short : ltb (length name) 32 ≡ true = lt→ltb (length name) 32 lt in
    rw (read, short, received) refl

-- Whatever the sender does after the file.
abbrev IsReceived : File → Msg × List Action → Type 0
IsReceived f (t', actions) =
    (later : List Action)
    → (rs : List Action) × (recv_file (messages (actions ++ later))
        ≡ ok (record { copy = copy_of f; actions = rs; later = messages later }))
      × ((next : List Action) → AreInStep later next → AreInStep (actions ++ later) (rs ++ next))

send_file-recv_file : (t : Msg) (f : File) → IsCopied f → Returns (IsReceived f) (send_file t f)
unfolding send_file strcpy
send_file-recv_file t f v =
    let fits : ltb (length f.name) max_len ≡ true =
      lt→ltb (length f.name) max_len (omega (arith, v.name_short)) in
    let payload : Memory = write_bytes t.payload 0 (f.name ++ 0 ∷ []) in
    let t1 : Msg = record { len = length f.name + 1; payload = payload } in
    let t2 : Msg = record {
      len = int_of f.size;
      payload = write_bytes payload 0 (codes "file size" ++ 0 ∷ []);
    } in
    let name : text_at max_len payload 0 ≡ ok f.name =
      text_at-write_bytes max_len t.payload 0 f.name v.name_ends (omega (arith, v.name_short)) in
    rw (fits, Returns)
      λ later.
        let (rs, received, in_step) = send_content-recv_content t2 f.size f.reads later v.regular in
        let counted = blocks-AreReads f.size f.reads v.size_small v.regular in
        (
          answers t1 ++ (answers t2 ++ rs),
          recv_file_lem t1 t2 _ (messages later) f.name f.reads rs name v.name_short
              (rw counted received),
          λ next s. (ack-IsAck t1, (ack-IsAck t2, in_step next s)),
        )

abbrev pub AreCopied : List File → Type 0
AreCopied [] = Unit
AreCopied (f ∷ fs) = IsCopied f × AreCopied fs

abbrev pub copies : List File → List Copy
copies [] = []
copies (f ∷ fs) = copy_of f ∷ copies fs

abbrev AreReceived : List File → List Action → Type 0
AreReceived fs actions =
    (rs : List Action) × (recv_files (length fs) (messages actions) ≡ ok (copies fs, rs))
    × AreInStep actions rs

send_files-recv_files :
    (t : Msg) (fs : List File) → AreCopied fs → Returns (AreReceived fs) (send_files t fs)
unfolding send_files recv_files
send_files-recv_files t [] v = ([], refl, tt)
send_files-recv_files t (f ∷ fs) (v, vs) =
    Returns-bind (IsReceived f) (AreReceived (f ∷ fs)) (send_file t f)
      (λ (t', actions). send_files t' fs >>= λ later. ok (actions ++ later))
      (send_file-recv_file t f v)
      λ (t', actions) one.
        Returns-bind (AreReceived fs) (AreReceived (f ∷ fs)) (send_files t' fs)
          (λ later. ok (actions ++ later)) (send_files-recv_files t' fs vs)
          λ later (rs, received, in_step).
            let (qs, first, before) = one later in
            (qs ++ rs, rw (first, received) refl, before rs in_step)

-- Over a link that loses nothing and keeps the order, the receiver makes a copy of each file that the
-- sender is given, in order, under its name with `copy_` before it. What is written to it are the
-- bytes that the sender read, and each of the two waits for a message exactly where the other sends it,
-- an ACK where the sender waits. The files are regular ones of fewer than 2 ^ 31 bytes, with names of up
-- to 31 characters, and there are fewer than 2 ^ 31 of them.
pub send-recv :
    (stack : Memory) (fs : List File)
    → AreCopied fs
    → length fs < 2 ^ 31
    → Returns
        (λ actions.
          (rs : List Action) × (recv (messages actions) ≡ ok (copies fs, rs))
          × AreInStep actions rs)
        (send stack fs)
unfolding send recv
send-recv stack fs v few =
    let same : int_of (length fs) ≡ length fs = omega arith in
    let positive : ltb (length fs) (2 ^ 31) ≡ true = lt→ltb (length fs) (2 ^ 31) few in
    Returns-bind (AreReceived fs) _ (send_files _ fs) _ (send_files-recv_files _ fs v)
      λ later (rs, received, in_step). (waits ∷ rs, rw (same, positive, received) refl, in_step)
