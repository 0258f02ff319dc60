-- ===== src/Router/ArpTable/Bounds.antt =====
-- Memory safety and contents of the ARP table of tema1/router.c.
use protocoale_de_comunicati.Common.{
  ℕ, ◌+◌, ◌*◌, ◌≤◌, ◌<◌, ◌≡◌, refl, Option, none, some, List, [], ◌∷◌, ◌++◌, arith, ◌==◌, ltb,
  if◌then◌else◌, length, length-append, ok, fault, Returns, ◌>>=◌, false, ap, ◌∙◌,
}
use protocoale_de_comunicati.Router.ArpTable.{
  ArpEntry, ArpTable, entry_size, scan, get_arp_entry, learn,
}

-- The block has room for all entries up to the limit, and the limit is not reached.
pub record IsRoomy (t : ArpTable) : Type 0 where
  pub block : t.max_size * entry_size ≤ t.bytes
  pub below : length t.entries < t.max_size

-- The first entry for the address.
unfoldable pub first_entry : List ArpEntry → ℕ → Option ArpEntry
first_entry [] ip = none
first_entry (e ∷ es) ip = if ip == e.ip then some e else first_entry es ip

scan-first_entry :
    (bytes i : ℕ) (es : List ArpEntry) (ip : ℕ)
    → (i + length es) * entry_size ≤ bytes
    → scan bytes i es ip ≡ ok (first_entry es ip)
unfolding scan first_entry
scan-first_entry bytes i [] ip room = refl
scan-first_entry bytes i (e ∷ es) ip room = ground (arith, scan-first_entry bytes (i + 1) es ip)

-- With room for its entries the table is read inside its block, and `get_arp_entry` returns the
-- first entry for the address.
pub get_arp_entry-first_entry :
    (t : ArpTable) (ip : ℕ) → IsRoomy t → get_arp_entry t ip ≡ ok (first_entry t.entries ip)
unfolding get_arp_entry
get_arp_entry-first_entry t ip v = scan-first_entry t.bytes 0 t.entries ip (omega arith)

first_entry-append :
    (es : List ArpEntry) (e : ArpEntry) (ip : ℕ)
    → first_entry (es ++ (e ∷ [])) ip
      ≡ elim (first_entry es ip) [ none ↦ (if ip == e.ip then some e else none) | some a ↦ some a ]
unfolding first_entry
first_entry-append [] e ip = ground arith
first_entry-append (a ∷ es) e ip = ground (arith, first_entry-append es e ip)

-- While a table has room for one more entry below its limit, a reply is stored inside the block, the
-- room stays, and a lookup afterwards gives the old entry for the address if there was one, and
-- else the new one: a second reply for an address changes nothing.
get_arp_entry-learn :
    (t : ArpTable) (e : ArpEntry) (ip : ℕ)
    → IsRoomy t
    → length t.entries + 1 < t.max_size
    → Returns
        (λ t'.
          IsRoomy t'
          × (get_arp_entry t' ip
              ≡ ok (elim (first_entry t.entries ip) [
                | none ↦ (if ip == e.ip then some e else none)
                | some a ↦ some a
              ])))
        (learn t e)
unfolding learn
get_arp_entry-learn t e ip v more =
    let t' : ArpTable = record t { entries = t.entries ++ (e ∷ []) } in
    let grown = length-append t.entries (e ∷ []) in
    let roomy : IsRoomy t' = omega arith in
    let fits : ltb t.bytes (length t.entries * entry_size + 10) ≡ false = ground arith in
    let short : (length (t.entries ++ (e ∷ [])) == t.max_size) ≡ false = ground arith in
    rw (fits, short)
      (roomy, get_arp_entry-first_entry t' ip roomy ∙ ap ok (first_entry-append t.entries e ip))

-- What storing a reply changes: one entry more, and the limit as it was.
pub learn-IsRoomy :
    (t : ArpTable) (e : ArpEntry)
    → IsRoomy t
    → length t.entries + 1 < t.max_size
    → Returns
        (λ t'. IsRoomy t' × (length t'.entries ≡ length t.entries + 1) × (t'.max_size ≡ t.max_size))
        (learn t e)
unfolding learn
learn-IsRoomy t e v more =
    let grown = length-append t.entries (e ∷ []) in
    let fits : ltb t.bytes (length t.entries * entry_size + 10) ≡ false = ground arith in
    let short : (length (t.entries ++ (e ∷ [])) == t.max_size) ≡ false = ground arith in
    rw (fits, short) (omega arith, omega arith, refl)

-- The reply that fills the table makes `realloc` shrink it: whatever the limit was, the next reply
-- is written outside the block.
pub learn_overflows :
    (t : ArpTable) (e e' : ArpEntry)
    → IsRoomy t
    → length t.entries + 1 ≡ t.max_size
    → (learn t e >>= λ t'. learn t' e') ≡ fault
unfolding learn
learn_overflows t e e' v full = ground (arith, length-append t.entries (e ∷ []))
