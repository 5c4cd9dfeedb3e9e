-- ===== src/RelayLink/Dns/Fuel.antt =====
-- The walks over names in a DNS answer: its length is fuel enough.
use ldn_mitm.Base.{
  ℕ, zero, suc, ◌+◌, ◌≡◌, ◌≤◌, refl, List, false, not, ◌&&◌, ◌==◌, ltb, length, byte_at, arith,
}
use ldn_mitm.RelayLink.Dns.{skip_question, skip_name}

-- Fuel that reaches the end of the answer ends neither walk early: any more gives the same.
pub skip_question_enough :
    (fuel more off : ℕ) (r : List ℕ)
    → length r ≤ off + fuel
    → fuel ≤ more
    → (skip_question more r off ≡ skip_question fuel r off)
      × (skip_name more r off ≡ skip_name fuel r off)
unfolding skip_question skip_name
skip_question_enough zero zero off r h m = (refl, refl)
skip_question_enough zero (suc more) off r h m =
    let ended : (ltb off (length r) && not (byte_at r off == 0)) ≡ false = ground arith in
    rw ended (refl, refl)
skip_question_enough (suc fuel) zero off r h m = absurd (omega arith)
skip_question_enough (suc fuel) (suc more) off r h m =
    let (q, n) =
      skip_question_enough fuel more (off + (byte_at r off + 1)) r (omega arith) (omega arith) in
    rw (q, n) (refl, refl)
