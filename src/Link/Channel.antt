-- ===== src/Link/Channel.antt =====
-- The two threads of laboratoare/lab-03/link_emulator/link.c that carry messages over the slow
-- direction: `run_forwarding`, which fills the buffer, and `link_scheduler`, which empties it. A step
-- is what a thread does between two points at which it releases the lock or waits. The queues are
-- lists, the oldest message first.
pub mod Order
pub mod Bounds
pub mod Timing
pub mod Due
pub mod Waits
use protocoale_de_comunicati.Common.{
  ℕ, zero, suc, ◌+◌, ◌-◌, ◌%◌, ◌^◌, ◌<◌, ◌≡◌, Bool, true, false, ◌&&◌, ◌||◌, List, [], ◌∷◌, ◌++◌,
  length, Memory, store, xor, ltb, leb, ◌==◌, if◌then◌else◌, Outcome, ok, exited, fault, ◌>>=◌,
}

-- `msg`; `len` is an `int` in two's complement.
pub record Msg : Type 0 where
  pub len : ℕ
  pub payload : Memory

abbrev pub msgsize : ℕ
msgsize = 1400

-- `msg_in_flight`.
pub record MsgInFlight : Type 0 where
  pub m : Msg
  pub finish_time : ℕ

abbrev pub buffer_max : ℕ
buffer_max = 1000

-- The parameters of the command line, none negative: microseconds and percents.
pub record Config : Type 0 where
  pub serialization_delay : ℕ
  pub delay : ℕ
  pub loss : ℕ
  pub corrupt : ℕ

-- Where `run_forwarding` stands: before `receive_message1`, or with a message and `overflow` read.
pub data Forwarder : Type 0 where
  receiving : Forwarder
  holding : Msg → (overflow : Bool) → Forwarder

-- Where `link_scheduler` stands: at the head of the loop, with `stuff` read, or with the two waits,
-- of which only the positive values are told apart.
pub data Scheduler : Type 0 where
  at_top : Scheduler
  checked : (crt_time : ℕ) → (stuff : Bool) → Scheduler
  waiting : (wait_time_idle wait_time_send : ℕ) → Scheduler

pub record Link : Type 0 where
  pub buffer : List Msg
  pub in_flight : List MsgInFlight
  pub idle_time : ℕ
  pub forwarder : Forwarder
  pub scheduler : Scheduler

unfoldable pub initial : Link
initial = record {
  buffer = [];
  in_flight = [];
  idle_time = 0;
  forwarder = receiving;
  scheduler = at_top;
}

-- What `rand` returns at its four calls.
pub record Draws : Type 0 where
  pub drop : ℕ
  pub flip : ℕ
  pub index : ℕ
  pub bit : ℕ

-- The absolute value of an `int`, which decides `rand() % len`.
abbrev pub magnitude : ℕ → ℕ
magnitude len = if ltb len (2 ^ 31) then len else 2 ^ 32 - len

-- `b ^ 1 << k` on a byte.
unfoldable pub flip_bit : ℕ → ℕ → ℕ
flip_bit b k = xor 8 b (2 ^ k)

-- A random bit of a random byte; a fault at `len` 0, where `%` has no value, and past the payload.
unfoldable pub corrupted : Msg → Draws → Outcome Msg
corrupted m d =
    let n = magnitude m.len in
    if n == 0
    then fault
    else if ltb (d.index % n) msgsize
    then ok (record m {
      payload = store m.payload (d.index % n) (flip_bit (m.payload (d.index % n)) (d.bit % 8));
    })
    else fault

-- `run_forwarding` up to where it has read `overflow`.
unfoldable pub receive : Link → Msg → Link
receive l m = record l { forwarder = holding m (leb buffer_max (length l.buffer)) }

abbrev pub enqueued : Link → Msg → Link
enqueued l m = record l { forwarder = receiving; buffer = l.buffer ++ (m ∷ []) }

-- The rest of its loop: the link after it and the message enqueued, if any.
unfoldable pub decide : Config → Link → Msg → (overflow : Bool) → Draws → Outcome (List Msg × Link)
decide c l m overflow d =
    if overflow || ltb (d.drop % 100) c.loss
    then ok ([], record l { forwarder = receiving })
    else (if ltb (d.flip % 100) c.corrupt then corrupted m d else ok m) >>= λ m'.
        ok (m' ∷ [], enqueued l m')

-- The inner loop of `link_scheduler`: what goes out, and what stays in flight.
unfoldable pub deliver : (crt_time : ℕ) → List MsgInFlight → List MsgInFlight × List MsgInFlight
deliver crt [] = ([], [])
deliver crt (f ∷ fs) =
    let (out, stay) = deliver crt fs in
    if ltb crt f.finish_time then ([], f ∷ fs) else (f ∷ out, stay)

-- `link_scheduler` from the head of its loop until it has read `stuff`, and what it sends.
unfoldable pub check : Link → (crt_time : ℕ) → List MsgInFlight × Link
check l crt =
    let (out, stay) = deliver crt l.in_flight in
    (out, record l { in_flight = stay; scheduler = checked crt (ltb 0 (length l.buffer)) })

-- The waits at the end: `finish_time` of the oldest message in flight, if any.
abbrev pub oldest_finish : List MsgInFlight → ℕ
oldest_finish [] = 0
oldest_finish (f ∷ fs) = f.finish_time

abbrev pub waits : Link → (crt_time : ℕ) → Link
waits l crt = record l { scheduler = waiting (l.idle_time - crt) (oldest_finish l.in_flight - crt) }

-- The message taken out of the buffer into flight. The assertion ends the program where there is none.
unfoldable pub put_in_flight : Config → Link → (crt_time : ℕ) → List Msg → Outcome Link
put_in_flight c l crt [] = exited
put_in_flight c l crt (m ∷ ms) = ok (record l {
  buffer = ms;
  idle_time = crt + c.serialization_delay;
  in_flight =
      l.in_flight
      ++ (record { m = m; finish_time = (crt + c.serialization_delay + c.delay) % 2 ^ 64 } ∷ []);
})

unfoldable pub fly : Config → Link → (crt_time : ℕ) → (stuff : Bool) → Outcome Link
unfolding put_in_flight
fly c l crt stuff =
    if stuff && leb l.idle_time crt
    then put_in_flight c l crt l.buffer >>= (λ l'. ok (waits l' crt))
    else ok (waits l crt)

-- How the thread pauses.
pub data Pause : Type 0 where
  usleep : ℕ → Pause
  cond_wait : Pause

-- The branches at the end of the loop. The assertion `!buffer->size` ends the program.
unfoldable pub pause : (buffer_size wait_time_idle wait_time_send : ℕ) → Outcome Pause
pause size idle send =
    if ltb 0 idle || ltb 0 send
    then ok (usleep (if ltb 0 send && ltb send idle then send else idle))
    else if size == 0
    then ok cond_wait
    else exited

unfoldable pub rest : Link → (wait_time_idle wait_time_send : ℕ) → Outcome (Pause × Link)
unfolding pause
rest l idle send =
    pause (length l.buffer) idle send >>= λ p. ok (p, record l { scheduler = at_top })

-- A whole turn of the loop of `link_scheduler`, with the messages that the other thread enqueues
-- between the reading of `stuff` and the end of the turn.
unfoldable pub turn :
    Config
    → Link
    → (crt_time : ℕ) → (arrived : List Msg) → Outcome (List MsgInFlight × Pause × Link)
unfolding check fly rest
turn c l crt arrived =
    let (out, l1) = check l crt in
    fly c l1 crt (ltb 0 (length l.buffer)) >>= λ l2.
    rest (record l2 { buffer = l2.buffer ++ arrived }) (l2.idle_time - crt)
      (oldest_finish l2.in_flight - crt)
    >>= λ (p, l3). ok (out, p, l3)

-- One step of one of the threads, with the messages that it enqueues and those that it sends. The
-- clock counts microseconds in fewer than 62 bits.
pub data Step (c : Config) (l : Link) : List Msg → List MsgInFlight → Link → Type 0 where
  receives : (m : Msg) → l.forwarder ≡ receiving → Step c l [] [] (receive l m)
  decides :
      (m : Msg) (overflow : Bool) (d : Draws) (ins : List Msg) (l' : Link)
      → l.forwarder ≡ holding m overflow
      → decide c l m overflow d ≡ ok (ins, l')
      → Step c l ins [] l'
  checks :
      (crt_time : ℕ)
      → crt_time < 2 ^ 62
      → l.scheduler ≡ at_top
      → Step c l [] (check l crt_time).0 (check l crt_time).1
  flies :
      (crt_time : ℕ) (stuff : Bool) (l' : Link)
      → l.scheduler ≡ checked crt_time stuff
      → fly c l crt_time stuff ≡ ok l'
      → Step c l [] [] l'
  rests :
      (idle send : ℕ) (p : Pause) (l' : Link)
      → l.scheduler ≡ waiting idle send
      → rest l idle send ≡ ok (p, l')
      → Step c l [] [] l'

-- The links that the two threads reach, with all the messages enqueued and all those sent until then.
pub data Reaches (c : Config) : List Msg → List MsgInFlight → Link → Type 0 where
  starts : Reaches c [] [] initial
  continues :
      (ins more_in : List Msg) (outs more_out : List MsgInFlight) (l l' : Link)
      → Reaches c ins outs l
      → Step c l more_in more_out l'
      → Reaches c (ins ++ more_in) (outs ++ more_out) l'
