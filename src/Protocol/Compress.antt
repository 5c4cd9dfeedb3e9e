-- ===== src/Protocol/Compress.antt =====
-- LanSocket::compress and LanSocket::decompress: zero runs as a zero byte and a count.
pub mod Laws
use ldn_mitm.Base.{ℕ, zero, suc, ◌-◌, List, [], ◌∷◌, ◌++◌, Option, none, some, min, replicate}
use mathlib.Core.Option

-- The inner loop: how many of the next bytes are zero, at most `limit`, and what follows them.
unfoldable pub take_zeros : ℕ → List ℕ → ℕ × List ℕ
take_zeros zero xs = (0, xs)
take_zeros (suc limit) [] = (0, [])
take_zeros (suc limit) (zero ∷ xs) = let (n, rest) = take_zeros limit xs in (suc n, rest)
take_zeros (suc limit) (suc c ∷ xs) = (0, suc c ∷ xs)

-- `room` is `out_end - out`; `none` is the return value -1, and `some out` is 0 with the bytes
-- written, whose number goes to `*output_size`.
unfoldable pub compress : ℕ → List ℕ → Option (List ℕ)
unfolding take_zeros
compress room [] = some []
compress zero (c ∷ xs) = none
compress (suc room) (suc c ∷ xs) = Option.map (◌∷◌ (suc c)) (compress room xs)
compress (suc zero) (zero ∷ xs) = none
compress (suc (suc room)) (zero ∷ xs) =
    let (count, rest) = take_zeros 255 xs in
    Option.map (λ out. 0 ∷ count ∷ out) (compress room rest)

-- A run that does not fit `room` is cut short, as by the `break` of the source.
unfoldable pub decompress : ℕ → List ℕ → Option (List ℕ)
decompress room [] = some []
decompress zero (c ∷ xs) = none
decompress (suc room) (suc c ∷ xs) = Option.map (◌∷◌ (suc c)) (decompress room xs)
decompress (suc room) (zero ∷ []) = none
decompress (suc room) (zero ∷ count ∷ xs) =
    let run = min count room in
    Option.map (λ out. 0 ∷ (replicate run 0 ++ out)) (decompress (room - run) xs)
