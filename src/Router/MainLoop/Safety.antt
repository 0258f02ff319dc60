-- ===== src/Router/MainLoop/Safety.antt =====
-- The memory safety of the main loop of tema1/router.c.
use protocoale_de_comunicati.Common.{ℕ, ◌+◌, ◌≡◌, Option, none, some, List, [], ◌∷◌, length, ok}
use protocoale_de_comunicati.Router.Frames.{Packet}
use protocoale_de_comunicati.Router.ArpTable.Bounds.{IsRoomy}
use protocoale_de_comunicati.Router.Forward.{Host, Router}
use protocoale_de_comunicati.Router.MainLoop.{
  Round, Loop, first_ready, router_num_interfaces, receive_message, step,
}
use protocoale_de_comunicati.Router.MainLoop.Kept.{learns, releases}

-- What a round counts, by a measure of the packet that it receives, and what a run counts.
module _ (measure : Router → Packet → ℕ) where
  unfoldable pub counted : Loop → (interface : ℕ) → Option (List ℕ) → ℕ
  counted l i received = elim (receive_message l.m i received) [
    | ok m' ↦ measure l.router m'
    | _ ↦ 0
  ]

  unfoldable pub count : Loop → Round → ℕ
  unfolding counted
  count l round = elim (first_ready router_num_interfaces 0 round.ready) [
    | none ↦ 0
    | some i ↦ counted l i (round.received i)
  ]

  unfoldable pub count_all : Host → Loop → List Round → ℕ
  unfolding count
  count_all h l [] = 0
  count_all h l (round ∷ rounds) =
      count l round + (elim (step h l round) [ ok l' ↦ count_all h l' rounds | _ ↦ 0 ])

-- The entries that a packet adds, and the packets that it may release.
abbrev pub entries_of : Router → Packet → ℕ
entries_of r m = learns m.payload

abbrev pub released_by : Router → Packet → ℕ
released_by r m = releases r m.payload

-- Over a run: the ARP packets that are no requests, and the waiting packets that they may release.
abbrev pub replies : Host → Loop → List Round → ℕ
replies = count_all entries_of

abbrev pub released : Host → Loop → List Round → ℕ
released = count_all released_by

-- The loop with its table in order, after `added` entries.
pub record IsRunning (l : Loop) (added : ℕ) (l' : Loop) : Type 0 where
  pub roomy : IsRoomy l'.router.arp_table
  pub limit : l'.router.arp_table.max_size ≡ l.router.arp_table.max_size
  pub entries : length l'.router.arp_table.entries ≡ length l.router.arp_table.entries + added
