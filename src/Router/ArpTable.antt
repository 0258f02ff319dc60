-- ===== src/Router/ArpTable.antt =====
-- The ARP table of tema1/router.c: `arp_table`, `arp_table_size` and `arp_max_size`.
pub mod Bounds
use protocoale_de_comunicati.Common.{
  ℕ, zero, suc, ◌+◌, ◌*◌, Option, none, some, List, [], ◌∷◌, ◌++◌, ◌==◌, ltb, if◌then◌else◌, length,
  Outcome, ok, exited, fault,
}
use protocoale_de_comunicati.Router.Frames.{Mac}

-- `struct arp_table_entry`: four bytes, six bytes, and two of padding.
pub record ArpEntry : Type 0 where
  pub ip : ℕ
  pub mac : Mac

abbrev pub entry_size : ℕ
entry_size = 12

-- The entries written so far, the bytes that the block of memory has, and `arp_max_size`.
pub record ArpTable : Type 0 where
  pub entries : List ArpEntry
  pub bytes : ℕ
  pub max_size : ℕ

abbrev pub arp_maxsize : ℕ
arp_maxsize = 100

-- `malloc(sizeof(struct arp_table_entry) * arp_max_size)`.
unfoldable pub new_arp_table : ArpTable
new_arp_table = record { entries = []; bytes = entry_size * arp_maxsize; max_size = arp_maxsize }

-- `get_arp_entry` from index `i` on. It reads `ip`, the first four bytes of an entry, and the
-- caller copies `mac`, the next six, of the one that it returns: both must lie inside the block.
unfoldable pub scan : (bytes : ℕ) → (i : ℕ) → List ArpEntry → (ip : ℕ) → Outcome (Option ArpEntry)
scan bytes i [] ip = ok none
scan bytes i (e ∷ es) ip =
    let rest = scan bytes (i + 1) es ip in
    if ltb bytes (i * entry_size + 4)
    then fault
    else if ip == e.ip
    then (if ltb bytes (i * entry_size + 10) then fault else ok (some e))
    else rest

unfoldable pub get_arp_entry : ArpTable → (ip : ℕ) → Outcome (Option ArpEntry)
unfolding scan
get_arp_entry t ip = scan t.bytes 0 t.entries ip

-- `if (arp_table_size == arp_max_size)`: the size doubles, and `realloc` is given that number, of
-- entries, for the number of bytes.
unfoldable pub grow : ArpTable → ArpTable
grow t =
    if length t.entries == t.max_size
    then record t { bytes = t.max_size * 2; max_size = t.max_size * 2 }
    else t

-- What the main loop does with an ARP reply: the entry is written behind the others.
unfoldable pub learn : ArpTable → ArpEntry → Outcome ArpTable
unfolding grow
learn t e =
    if ltb t.bytes (length t.entries * entry_size + 10)
    then fault
    else ok (grow (record t { entries = t.entries ++ (e ∷ []) }))
