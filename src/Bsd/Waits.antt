-- ===== src/Bsd/Waits.antt =====
-- How long Poll waits, and in which pieces.
use Prim.{tt}
use ldn_mitm.Base.{
  ℕ, zero, suc, ◌+◌, ◌-◌, ◌≡◌, ◌<◌, ◌≤◌, refl, sym, List, [], ◌∷◌, Bool, true, false, not, Option,
  none, some, leb, if◌then◌else◌, ◌==◌, ltb, if-elim, arith,
}
use ldn_mitm.GameRx.{GameRx}
use ldn_mitm.Bsd.Wake.{PollFd, poll_wakes}
use ldn_mitm.Bsd.Poll.{waited, poll}
use ldn_mitm.Bsd.{
  PollReply, events, poll_error, quiet, ipc_failed, is_quiet, Waited, poll_slices, poll_waiting,
  wait_cap_ms,
}

abbrev pub sum : List ℕ → ℕ
sum [] = 0
sum (x ∷ xs) = x + sum xs

abbrev pub AllWithin : ℕ → List ℕ → Type 0
AllWithin cap [] = Unit {0}
AllWithin cap (x ∷ xs) = (x ≤ cap) × AllWithin cap xs

-- The reply is that of the last slice, which was forwarded with number `j` and on; all before were quiet.
abbrev pub IsAnswer : (ℕ → ℕ → PollReply) → ℕ → List ℕ → PollReply → Type 0
IsAnswer fwd j [] r = ⊥
IsAnswer fwd j (x ∷ []) r = r ≡ fwd j x
IsAnswer fwd j (x ∷ y ∷ xs) r = (fwd j x ≡ quiet) × IsAnswer fwd (j + 1) (y ∷ xs) r

-- The first answer that is not quiet, or the last; short slices, no longer together than the timeout,
-- and all of it if nothing happened.
abbrev IsWait : (ℕ → ℕ → PollReply) → ℕ → ℕ → Waited → Type 0
IsWait fwd j total w =
    IsAnswer fwd j w.slices w.reply
    × AllWithin wait_cap_ms w.slices
    × (sum w.slices ≤ total)
    × (is_quiet w.reply ≡ true → sum w.slices ≡ total)

IsAnswer-after :
    (fwd : ℕ → ℕ → PollReply) (j x : ℕ) (xs : List ℕ) (r : PollReply)
    → fwd j x ≡ quiet
    → IsAnswer fwd (j + 1) xs r
    → IsAnswer fwd j (x ∷ xs) r
IsAnswer-after fwd j x [] r q h = absurd h
IsAnswer-after fwd j x (y ∷ ys) r q h = (q, h)

zero_left : (n : ℕ) → (n == 0) ≡ true → n ≡ 0
zero_left n e = ground arith

quiet_lem : (r : PollReply) → is_quiet r ≡ true → r ≡ quiet
quiet_lem quiet q = refl
quiet_lem (events n) q = absurd (ground arith)
quiet_lem (poll_error n) q = absurd (ground arith)
quiet_lem ipc_failed q = absurd (ground arith)

poll_slices-IsWait :
    (fwd : ℕ → ℕ → PollReply) (fuel j remaining : ℕ)
    → 0 < remaining
    → remaining ≤ fuel
    → IsWait fwd j remaining (poll_slices fwd fuel j remaining)
unfolding poll_slices
poll_slices-IsWait fwd zero j remaining p h = absurd (omega arith)
poll_slices-IsWait fwd (suc fuel) j remaining p h =
    let slice = if ltb remaining wait_cap_ms then remaining else wait_cap_ms in
    let cap : slice ≤ wait_cap_ms = ground arith in
    let room : slice ≤ remaining = ground arith in
    let some_wait : 0 < slice = ground arith in
    if-elim (IsWait fwd j remaining) (not (is_quiet (fwd j slice)))
      (λ e. (refl, (cap, tt), omega (arith, room), λ q. absurd (ground arith)))
      (λ e.
        if-elim (IsWait fwd j remaining) (remaining - slice == 0)
          (λ z. (
            sym (quiet_lem (fwd j slice) (ground arith)),
            (cap, tt),
            omega (arith, room),
            λ q. omega (arith, room, zero_left (remaining - slice) z),
          ))
          (λ z.
            let (r, w, s, t) =
              poll_slices-IsWait fwd fuel (j + 1) (remaining - slice) (ground arith)
                (omega (arith, some_wait, h)) in
            (
              IsAnswer-after fwd j slice _ _ (quiet_lem (fwd j slice) (ground arith)) r,
              (cap, w),
              omega (arith, room, s),
              λ q. omega (arith, room, t q),
            )))

-- A Poll with a finite timeout above a minute that no queued frame answers waits in slices of at most a
-- second, for no longer than the timeout together; its answer is the first of the real service that is
-- not quiet, and it reports that nothing happened only after the whole timeout, whatever the real
-- service answers to each slice.
pub poll-IsWait :
    (enabled : Bool) (g : GameRx) (fds_in : List PollFd) (at_once : Option (List PollFd × Option ℕ))
    (fwd : ℕ → ℕ → PollReply) (timeout : ℕ)
    → poll_wakes enabled g fds_in ≡ none
    → 60000 < timeout
    → (w : Waited) × (poll enabled g fds_in at_once fwd (some timeout) ≡ waited w)
      × IsAnswer fwd 0 w.slices w.reply
      × AllWithin 1000 w.slices
      × (sum w.slices ≤ timeout)
      × (is_quiet w.reply ≡ true → sum w.slices ≡ timeout)
unfolding poll poll_waiting
poll-IsWait enabled g fds_in at_once fwd timeout e h =
    let (r, a, b, c) = poll_slices-IsWait fwd timeout 0 timeout (omega arith) (omega arith) in
    let long : leb timeout 60000 ≡ false = ground arith in
    (poll_slices fwd timeout 0 timeout, rw (e, long) refl, r, a, b, c)
