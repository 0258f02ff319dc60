-- ===== src/Link/Peer.antt =====
-- The sockets of laboratoare/lab-03/link_emulator/link.c: receive_message1, receive_message2, and the
-- reverse direction, which is neither delayed nor changed. What `recvfrom` returns is a parameter.
use protocoale_de_comunicati.Common.{
  ℕ, zero, suc, ◌<◌, length, arith, fault, ◌≡◌, refl, Bool, true, false, Option, none, some, List,
  [], ◌∷◌, if◌then◌else◌, Outcome, ok, exited, ◌>>=◌,
}
use protocoale_de_comunicati.Link.Channel.{Msg}

-- `link_up1` and `remote_addr1`, or those of the other link.
pub record Peer : Type 0 where
  pub link_up : Bool
  pub remote_addr : ℕ

-- What `recvfrom` returns: the sender and the message, or `none` for an error.
abbrev pub Datagrams : Type 0
Datagrams = List (Option (ℕ × Msg))

-- A message with what comes after it, `NULL`, or a call that waits for ever.
pub data Received : Type 0 where
  message : Msg → Peer → Datagrams → Received
  null : Received
  waits : Peer → Received

-- `receive_message1` and `receive_message2`: the first datagram brings the link up and is dropped.
unfoldable pub receive_message : Peer → Datagrams → Received
receive_message p [] = waits p
receive_message p (none ∷ ds) = null
receive_message p (some (from, m) ∷ ds) =
    let again = receive_message (record { link_up = true; remote_addr = from }) ds in
    if p.link_up then message m p ds else again

-- `run_reverse_forwarding` until it waits for ever: where each message is sent to, the address that
-- `send_message1` has, and the message. It exits after an error. A fault stands for fuel that is
-- used up.
unfoldable pub run_reverse_forwarding :
    (fuel : ℕ) → (link1 link2 : Peer) → Datagrams → Outcome (List (ℕ × Msg))
unfolding receive_message
run_reverse_forwarding zero link1 link2 ds = fault
run_reverse_forwarding (suc fuel) link1 link2 ds = elim (receive_message link2 ds) [
  | waits p ↦ ok []
  | null ↦ exited
  | message m p rest ↦
      run_reverse_forwarding fuel link1 p rest >>= λ sent. ok ((link1.remote_addr, m) ∷ sent)
]

abbrev pub arriving : List (ℕ × Msg) → Datagrams
arriving [] = []
arriving (d ∷ ds) = some d ∷ arriving ds

abbrev pub sent_to : ℕ → List (ℕ × Msg) → List (ℕ × Msg)
sent_to to [] = []
sent_to to ((from, m) ∷ ds) = (to, m) ∷ sent_to to ds

forwards_up :
    (fuel : ℕ) (link1 : Peer) (addr : ℕ) (ds : List (ℕ × Msg))
    → length ds < fuel
    → run_reverse_forwarding fuel link1
        (record { link_up = true; remote_addr = addr })
        (arriving ds)
      ≡ ok (sent_to link1.remote_addr ds)
unfolding run_reverse_forwarding receive_message
forwards_up zero link1 addr ds lt = absurd (omega arith)
forwards_up (suc fuel) link1 addr [] lt = refl
forwards_up (suc fuel) link1 addr ((from, m) ∷ ds) lt =
    rw (forwards_up fuel link1 addr ds (omega arith)) refl

-- On fuel for each datagram and one more, a link that is not up drops the first datagram that comes
-- and sends all others, unchanged and in order, to the peer of the other link.
pub run_reverse_forwarding_sends :
    (fuel : ℕ) (link1 link2 : Peer) (first : ℕ × Msg) (ds : List (ℕ × Msg))
    → link2.link_up ≡ false
    → length ds < fuel
    → run_reverse_forwarding fuel link1 link2 (arriving (first ∷ ds))
      ≡ ok (sent_to link1.remote_addr ds)
unfolding run_reverse_forwarding receive_message
run_reverse_forwarding_sends zero link1 link2 first ds down lt = absurd (omega arith)
run_reverse_forwarding_sends (suc fuel) link1 link2 (from, m) [] down lt = rw down refl
run_reverse_forwarding_sends (suc fuel) link1 link2 (from, m) ((from', m') ∷ ds) down lt =
    rw (down, forwards_up fuel link1 from ds (omega arith)) refl
