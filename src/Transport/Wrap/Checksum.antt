-- ===== src/Transport/Wrap/Checksum.antt =====
-- IpChecksum, as a receiver checks it.
use ldn_mitm.Base.{ℕ, ◌+◌, ◌-◌, ◌≡◌, ◌<◌, u32, arith}
use ldn_mitm.Transport.Wrap.{fold_carries, ip_checksum, ip_header, sum_words}

-- The word of the checksum is added to the others; the header's ten words are below 2^20.
sum_words-ip_header :
    (src dst ip_id total cs : ℕ)
    → cs < 65536
    → (sum_words (ip_header src dst ip_id total cs)
        ≡ sum_words (ip_header src dst ip_id total 0) + cs)
      × (sum_words (ip_header src dst ip_id total 0) < 1048576)
unfolding ip_header
sum_words-ip_header src dst ip_id total cs h = (omega arith, omega arith)

fold_carries-bound : (s : ℕ) → s < 1048576 → fold_carries 3 s < 65536
unfolding fold_carries
fold_carries-bound s h = ground arith

-- The end-around carries of a sum and its complement come to 0xffff.
fold_carries-complement :
    (s : ℕ) → s < 1048576 → fold_carries 3 (s + (65535 - fold_carries 3 s)) ≡ 65535
unfolding fold_carries
fold_carries-complement s h = ground arith

checksum-complement :
    (s : ℕ) → s < 1048576 → 65535 - fold_carries 3 (u32 (s + (65535 - fold_carries 3 s))) ≡ 0
checksum-complement s h =
    let same : u32 (s + (65535 - fold_carries 3 s)) ≡ s + (65535 - fold_carries 3 s) =
      omega arith in
    rw (same, fold_carries-complement s h)

-- The header that SendWrapped writes passes a receiver's test, whatever its fields are: the checksum
-- over all of it is 0.
pub ip_checksum-ip_header :
    (src dst ip_id total : ℕ)
    → ip_checksum (ip_header src dst ip_id total (ip_checksum (ip_header src dst ip_id total 0)))
      ≡ 0
unfolding ip_checksum
ip_checksum-ip_header src dst ip_id total =
    let s = sum_words (ip_header src dst ip_id total 0) in
    let cs = 65535 - fold_carries 3 (u32 s) in
    let (plus, small) = sum_words-ip_header src dst ip_id total cs (omega arith) in
    let same : u32 s ≡ s = omega arith in rw (plus, same) (checksum-complement s small)
