-- ===== src/Protocol/Compress/Laws.antt =====
-- LanSocket::compress and LanSocket::decompress together, and the room that they take.
use ldn_mitm.Base.{
  ℕ, zero, suc, ◌+◌, ◌-◌, ◌≤◌, ◌≡◌, refl, ap, inl, inr, List, [], ◌∷◌, ◌++◌, some, min, length,
  replicate, Option-cases, arith,
}
use mathlib.Core.Option
use ldn_mitm.Protocol.Compress.{take_zeros, compress, decompress}

take_zeros-append :
    (limit : ℕ) (xs : List ℕ) → replicate (take_zeros limit xs).0 0 ++ (take_zeros limit xs).1 ≡ xs
unfolding take_zeros
take_zeros-append zero xs = refl
take_zeros-append (suc limit) [] = refl
take_zeros-append (suc limit) (zero ∷ xs) = ap (◌∷◌ 0) (take_zeros-append limit xs)
take_zeros-append (suc limit) (suc c ∷ xs) = refl

take_zeros-le : (limit : ℕ) (xs : List ℕ) → (take_zeros limit xs).0 ≤ limit
unfolding take_zeros
take_zeros-le zero xs = omega arith
take_zeros-le (suc limit) [] = omega arith
take_zeros-le (suc limit) (zero ∷ xs) = omega (arith, take_zeros-le limit xs)
take_zeros-le (suc limit) (suc c ∷ xs) = omega arith

length-take_zeros :
    (limit : ℕ) (xs : List ℕ) → (take_zeros limit xs).0 + length (take_zeros limit xs).1 ≡ length xs
unfolding take_zeros
length-take_zeros zero xs = omega arith
length-take_zeros (suc limit) [] = omega arith
length-take_zeros (suc limit) (zero ∷ xs) = omega (arith, length-take_zeros limit xs)
length-take_zeros (suc limit) (suc c ∷ xs) = omega arith

-- Packed data is never longer than the room it is given.
pub length-compress :
    (room : ℕ) (xs : List ℕ) {out : List ℕ} → compress room xs ≡ some out → length out ≤ room
unfolding compress
length-compress room [] e = ground arith
length-compress zero (c ∷ xs) e = ground arith
length-compress (suc room) (suc c ∷ xs) {out} e = elim (Option-cases (compress room xs)) [
  | inl p ↦ ground arith
  | inr (o, p) ↦ ground (arith, length-compress room xs p)
]
length-compress (suc zero) (zero ∷ xs) e = ground arith
length-compress (suc (suc room)) (zero ∷ xs) {out} e =
    elim (Option-cases (compress room (take_zeros 255 xs).1)) [
      | inl p ↦ ground arith
      | inr (o, p) ↦ ground (arith, length-compress room (take_zeros 255 xs).1 p)
    ]

decompress_run :
    (cap n : ℕ) (o : List ℕ)
    → n ≤ cap
    → decompress (suc cap) (0 ∷ n ∷ o)
      ≡ Option.map (λ out. 0 ∷ (replicate n 0 ++ out)) (decompress (cap - n) o)
unfolding decompress
decompress_run cap n o h = let fits : min n cap ≡ n = omega arith in rw fits

-- A packed block expands, in a buffer that holds the original, to exactly the original.
pub decompress-compress :
    (room : ℕ) (xs : List ℕ) (cap : ℕ) {out : List ℕ}
    → compress room xs ≡ some out
    → length xs ≤ cap
    → decompress cap out ≡ some xs
unfolding compress decompress
decompress-compress room [] cap e h = ground arith
decompress-compress zero (c ∷ xs) cap e h = ground arith
decompress-compress (suc room) (suc c ∷ xs) zero e h = absurd (omega arith)
decompress-compress (suc room) (suc c ∷ xs) (suc cap) {out} e h =
    elim (Option-cases (compress room xs)) [
      | inl p ↦ ground arith
      | inr (o, p) ↦ ground (arith, decompress-compress room xs cap p (omega arith))
    ]
decompress-compress (suc zero) (zero ∷ xs) cap e h = ground arith
decompress-compress (suc (suc room)) (zero ∷ xs) zero e h = absurd (omega arith)
decompress-compress (suc (suc room)) (zero ∷ xs) (suc cap) {out} e h =
    elim (Option-cases (compress room (take_zeros 255 xs).1)) [
      | inl p ↦ ground arith
      | inr (o, p) ↦
          let run = take_zeros 255 xs in
          ground (
            arith,
            take_zeros-append 255 xs,
            length-take_zeros 255 xs,
            decompress-compress room run.1 (cap - run.0) p
                (omega (arith, length-take_zeros 255 xs)),
            decompress_run cap run.0 o,
          )
    ]
