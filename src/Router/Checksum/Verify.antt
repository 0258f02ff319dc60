-- ===== src/Router/Checksum/Verify.antt =====
-- Sender and receiver: what `ip_checksum` of tema1/skel.c stores, it accepts.
use protocoale_de_comunicati.Common.{
  ℕ, ◌+◌, ◌*◌, ◌/◌, ◌%◌, ◌^◌, ◌<◌, ◌≡◌, sym, ◌∙◌, List, [], ◌∷◌, ◌++◌, arith, length, length-append,
  bytes16, htons, ◌↔◌,
}
use protocoale_de_comunicati.Router.Checksum.{ip_checksum}
use protocoale_de_comunicati.Router.Checksum.Fold.{ones_complement}
use protocoale_de_comunicati.Router.Checksum.Rfc.{
  AreBytes, word_sum, rfc_checksum, ip_checksum-eq-rfc_checksum,
}

rfc_checksum-zero_iff : (bs : List ℕ) → (htons (rfc_checksum bs) ≡ 0) ↔ (word_sum bs % 65535 ≡ 0)
unfolding rfc_checksum ones_complement
rfc_checksum-zero_iff bs = (ground arith, ground arith)

-- A receiver accepts data, that is `ip_checksum` of it is 0, exactly when the sum of its 16-bit
-- words is a multiple of 65535.
pub ip_checksum-zero_iff :
    (address : ℕ) (bs : List ℕ)
    → AreBytes bs
    → length bs < 2 ^ 31
    → (ip_checksum address bs ≡ 0) ↔ (word_sum bs % 65535 ≡ 0)
ip_checksum-zero_iff address bs ok room =
    rw (ip_checksum-eq-rfc_checksum address bs ok room) (rfc_checksum-zero_iff bs)

pub word_sum-replace :
    (x y : ℕ) (pre post : List ℕ)
    → length pre % 2 ≡ 0
    → word_sum (pre ++ (x ∷ y ∷ post)) ≡ word_sum (pre ++ (0 ∷ 0 ∷ post)) + (x * 256 + y)
unfolding word_sum
word_sum-replace x y [] post even = omega arith
word_sum-replace x y (a ∷ []) post even = absurd (omega arith)
word_sum-replace x y (a ∷ b ∷ pre) post even =
    omega (arith, word_sum-replace x y pre post (omega arith))

AreBytes-replace :
    (x y : ℕ) (pre post : List ℕ)
    → x < 256
    → y < 256
    → AreBytes (pre ++ (0 ∷ 0 ∷ post))
    → AreBytes (pre ++ (x ∷ y ∷ post))
AreBytes-replace x y [] post hx hy (z, (w, ok)) = (hx, (hy, ok))
AreBytes-replace x y (a ∷ pre) post hx hy (ha, ok) = (ha, AreBytes-replace x y pre post hx hy ok)

rfc_checksum-lt : (bs : List ℕ) → rfc_checksum bs < 65536
unfolding rfc_checksum ones_complement
rfc_checksum-lt bs = ground arith

rfc_checksum_cancels : (bs : List ℕ) → (word_sum bs + rfc_checksum bs) % 65535 ≡ 0
unfolding rfc_checksum ones_complement
rfc_checksum_cancels bs = ground arith

pub AreBytes-bytes16 :
    (n : ℕ) (pre post : List ℕ)
    → AreBytes (pre ++ (0 ∷ 0 ∷ post))
    → AreBytes (pre ++ (bytes16 n ++ post))
AreBytes-bytes16 n pre post ok =
    AreBytes-replace (n % 256) (n / 256 % 256) pre post (omega arith) (omega arith) ok

pub length-replace :
    (x y : ℕ) (pre post : List ℕ) → length (pre ++ (x ∷ y ∷ post)) ≡ length (pre ++ (0 ∷ 0 ∷ post))
length-replace x y pre post =
    length-append pre (x ∷ y ∷ post) ∙ sym (length-append pre (0 ∷ 0 ∷ post))

-- The two bytes of `htons n` in memory are those of `n`, highest first.
sum_of_htons : (n : ℕ) → n < 65536 → htons n % 256 * 256 + htons n / 256 % 256 ≡ n
sum_of_htons n h = omega arith

-- Storing the checksum that `ip_checksum` computes with a zero checksum field, at an even offset of
-- the data, makes `ip_checksum` of the result 0, whatever the two addresses are.
pub ip_checksum-store :
    (address address' : ℕ) (pre post : List ℕ)
    → length pre % 2 ≡ 0
    → AreBytes (pre ++ (0 ∷ 0 ∷ post))
    → length (pre ++ (0 ∷ 0 ∷ post)) < 2 ^ 31
    → let c = ip_checksum address (pre ++ (0 ∷ 0 ∷ post)) in
      ip_checksum address' (pre ++ (bytes16 c ++ post)) ≡ 0
ip_checksum-store address address' pre post even ok room =
    let zeroed : List ℕ = pre ++ (0 ∷ 0 ∷ post) in
    let c : ℕ = ip_checksum address zeroed in
    let e : c ≡ htons (rfc_checksum zeroed) = ip_checksum-eq-rfc_checksum address zeroed ok room in
    (ip_checksum-zero_iff address' (pre ++ (bytes16 c ++ post)) (AreBytes-bytes16 c pre post ok)
        (omega (arith, length-replace (c % 256) (c / 256 % 256) pre post))).1
      (omega (
        arith,
        e,
        word_sum-replace (c % 256) (c / 256 % 256) pre post even,
        sum_of_htons (rfc_checksum zeroed) (rfc_checksum-lt zeroed),
        rfc_checksum_cancels zeroed,
      ))
