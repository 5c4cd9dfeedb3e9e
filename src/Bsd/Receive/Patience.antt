-- ===== src/Bsd/Receive/Patience.antt =====
-- How long a receive waits, and why it ends.
use ldn_mitm.Base.{
  ℕ, zero, suc, ◌+◌, ◌%◌, ◌≡◌, ◌≤◌, ◌<◌, Bool, true, false, not, ◌&&◌, ◌||◌, ◌==◌, if-elim, ==_iff,
  ap, Bool-cases, inl, inr, arith,
}
use ldn_mitm.GameRx.{has_data}
use ldn_mitm.Bsd.Receive.{
  World, WaitEnd, has_frame, gives_way, waiting, wait_for_game_rx, real_peek_every,
}

-- An end of the wait at a look from `first` to `last`, for the reason that it states.
abbrev pub EndsWithin : World → (ℕ → Bool) → ℕ → ℕ → WaitEnd → Type 0
EndsWithin world readable first last (has_frame k) =
    (first ≤ k) × (k ≤ last) × (has_data (world k).0 ≡ true)
EndsWithin world readable first last (gives_way k) =
    (first ≤ k) × (k ≤ last) × (not (world k).1.active || readable k ≡ true)
EndsWithin world readable first last waiting = ⊥

EndsWithin-earlier :
    (world : World) (readable : ℕ → Bool) (first last : ℕ) (e : WaitEnd)
    → EndsWithin world readable (first + 1) last e
    → EndsWithin world readable first last e
EndsWithin-earlier world readable first last (has_frame k) (a, b, c) = (omega arith, b, c)
EndsWithin-earlier world readable first last (gives_way k) (a, b, c) = (omega arith, b, c)
EndsWithin-earlier world readable first last waiting h = h

-- Between a look with no reason to end and one with a reason there is a step.
passes : (p : ℕ → Bool) (m n : ℕ) → p m ≡ false → p n ≡ true → m ≤ n → m + 1 ≤ n
passes p m n f t h = elim (Bool-cases (m == n)) [
  | inl e ↦ let same = ap p ((==_iff m n).0 e) in absurd (ground (arith, same))
  | inr e ↦ ground arith
]

wait-EndsWithin :
    (world : World) (readable : ℕ → Bool) (looks first last : ℕ)
    → first ≤ last
    → last < first + looks
    → (has_data (world last).0 || not (world last).1.active) ≡ true
    → EndsWithin world readable first last (wait_for_game_rx world readable looks first)
unfolding wait_for_game_rx
wait-EndsWithin world readable zero first last f l e = absurd (omega arith)
wait-EndsWithin world readable (suc looks) first last f l e =
    if-elim (EndsWithin world readable first last) (has_data (world first).0)
      (λ h. (omega arith, f, h))
      (λ h.
        if-elim (EndsWithin world readable first last) (not (world first).1.active)
          (λ i. (omega arith, f, ground arith))
          (λ i.
            if-elim (EndsWithin world readable first last)
              (first % real_peek_every == 0 && readable first) (λ r. (omega arith, f, ground arith))
              (λ r. EndsWithin-earlier world readable first last _ (
                wait-EndsWithin world readable looks (first + 1) last
                  (passes (λ k. has_data (world k).0 || not (world k).1.active) first last
                    (ground arith) e f)
                  (omega arith) e))))

-- A blocking receive ends at the latest at a look that finds a frame or the session's end, and its
-- end has a reason: a frame that is there then, a session that is over, or data on the real socket.
pub wait_for_game_rx-EndsWithin :
    (world : World) (readable : ℕ → Bool) (looks last : ℕ)
    → last < looks
    → (has_data (world last).0 || not (world last).1.active) ≡ true
    → EndsWithin world readable 0 last (wait_for_game_rx world readable looks 0)
wait_for_game_rx-EndsWithin world readable looks last l e =
    wait-EndsWithin world readable looks 0 last (omega arith) (omega arith) e
