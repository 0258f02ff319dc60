-- ===== src/Http/Client/Sending.antt =====
-- `send_to_server` of laboratoare/lab-10/helpers.c under partial writes.
use protocoale_de_comunicati.Common.{
  ℕ, zero, suc, ◌+◌, ◌-◌, ◌≤◌, ◌<◌, ◌≡◌, refl, false, Bool-cases, inl, inr, arith, Option, some,
  List, length, length-drop, take_all, take_drop, drop_drop, drop, true, ltb, lt→ltb, ◌==◌, ◌%◌,
  ◌^◌, ok,
}
use protocoale_de_comunicati.Http.Client.{send_from, send_to_server}

-- What `write` returns on a socket that works: at least one of the bytes that it is offered is
-- taken, and no more than all.
abbrev pub IsWorking : (ℕ → ℕ → Option ℕ) → Type 0
IsWorking write = (k n : ℕ) → 0 < n → (r : ℕ) × (write k n ≡ some r) × (0 < r) × (r ≤ n)

module _ (write : ℕ → ℕ → Option ℕ) (works : IsWorking write) (message : List ℕ) where
  send_from_all :
      (fuel k sent : ℕ)
      → sent < length message
      → length message - sent < fuel
      → send_from write fuel k message (length message) sent ≡ ok (drop sent message)
  unfolding send_from
  send_from_all zero k sent lt enough = absurd (omega arith)
  send_from_all (suc fuel) k sent lt enough =
      let (bytes, taken, positive, most) = works k (length message - sent) (omega arith) in
      let some_bytes : (bytes == 0) ≡ false = ground arith in
      elim (Bool-cases (ltb (sent + bytes) (length message))) [
        | inl more ↦
            rw
              (
                send_from,
                taken,
                some_bytes,
                more,
                send_from_all fuel (k + 1) (sent + bytes) (ground arith) (omega arith),
                drop_drop sent bytes (sent + bytes) message refl,
                take_drop bytes (drop sent message),
              )
              refl
        | inr done ↦
            rw
              (
                send_from,
                taken,
                some_bytes,
                done,
                take_all bytes (drop sent message) (ground (arith, length-drop sent message)),
              )
              refl
      ]

-- On a socket that works, `send_to_server` ends and hands over the whole message, which has fewer than
-- 2 ^ 31 bytes, however it is cut by partial writes: no byte is lost or sent twice.
pub send_to_server_all :
    (write : ℕ → ℕ → Option ℕ) (message : List ℕ)
    → IsWorking write
    → 0 < length message
    → length message < 2 ^ 31
    → send_to_server write message ≡ ok message
unfolding send_to_server
send_to_server_all write message works some_message small =
    let whole : length message % 2 ^ 32 ≡ length message = omega arith in
    let fits : ltb (length message) (2 ^ 31) ≡ true = lt→ltb (length message) (2 ^ 31) small in
    rw (whole, fits)
      (send_from_all write works message (suc (length message)) 0 0 some_message (omega arith))
