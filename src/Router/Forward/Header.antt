-- ===== src/Router/Forward/Header.antt =====
-- The header that tema1/router.c puts on a packet that it forwards.
use protocoale_de_comunicati.Common.{
  ℕ, ◌+◌, ◌-◌, ◌<◌, ◌≤◌, ◌≡◌, ◌≢◌, refl, List, [], ◌∷◌, arith, Memory, store, write_bytes,
  read_bytes,
}
use protocoale_de_comunicati.Router.Checksum.{ip_checksum}
use protocoale_de_comunicati.Router.Checksum.Rfc.{AreBytes}
use protocoale_de_comunicati.Router.Checksum.Verify.{ip_checksum-store}
use protocoale_de_comunicati.Router.Frames.{Mac, mac_at, ip_ttl}
use protocoale_de_comunicati.Router.Forward.{update_ttl, address_frame}

-- Every byte of the payload is a byte.
abbrev pub IsPayload : Memory → Type 0
IsPayload payload = (i : ℕ) → payload i < 256

-- The updated header is accepted by the next router, wherever it has it in memory.
pub update_ttl-accepted :
    (address : ℕ) (payload : Memory)
    → IsPayload payload
    → ip_checksum address (read_bytes (update_ttl payload) 14 20) ≡ 0
unfolding update_ttl
update_ttl-accepted address payload v =
    ip_checksum-store 18 address
      (payload 14
        ∷ payload 15
        ∷ payload 16
        ∷ payload 17
        ∷ payload 18
        ∷ payload 19
        ∷ payload 20
        ∷ payload 21
        ∷ (payload 22 - 1)
        ∷ payload 23
        ∷ [])
      (payload 26
        ∷ payload 27
        ∷ payload 28
        ∷ payload 29
        ∷ payload 30
        ∷ payload 31
        ∷ payload 32
        ∷ payload 33
        ∷ [])
      (omega arith)
      (omega (
        arith,
        v 14,
        v 15,
        v 16,
        v 17,
        v 18,
        v 19,
        v 20,
        v 21,
        v 22,
        v 23,
        v 26,
        v 27,
        v 28,
        v 29,
        v 30,
        v 31,
        v 32,
        v 33,
      ))
      (omega arith)

-- Outside the time to live and the checksum nothing changes.
pub update_ttl_same :
    (payload : Memory) (i : ℕ) → i ≢ 22 → i ≢ 24 → i ≢ 25 → update_ttl payload i ≡ payload i
unfolding update_ttl
update_ttl_same payload i a b c = ground arith

pub update_ttl-IsPayload : (payload : Memory) → IsPayload payload → IsPayload (update_ttl payload)
unfolding update_ttl
update_ttl-IsPayload payload v i = ground (arith, v i, v 22)

pub ip_ttl-update_ttl : (payload : Memory) → ip_ttl (update_ttl payload) ≡ ip_ttl payload - 1
unfolding update_ttl
ip_ttl-update_ttl payload = refl

-- The addresses are those given, and nothing behind them changes.
pub address_frame_lem :
    (payload : Memory) (dst src : Mac) (i : ℕ)
    → (mac_at (address_frame payload dst src) 0 ≡ dst)
      × (mac_at (address_frame payload dst src) 6 ≡ src)
      × (12 ≤ i → address_frame payload dst src i ≡ payload i)
unfolding address_frame
address_frame_lem payload dst src i = (refl, refl, λ h. ground arith)

-- Bytes that are written leave a payload a payload.
pub write_bytes-IsPayload :
    (mem : Memory) (at : ℕ) (bs : List ℕ)
    → IsPayload mem
    → AreBytes bs
    → IsPayload (write_bytes mem at bs)
write_bytes-IsPayload mem at [] v ok = v
write_bytes-IsPayload mem at (b ∷ bs) v (hb, ok) =
    write_bytes-IsPayload (store mem at b) (at + 1) bs (λ i. ground (arith, v i)) ok
