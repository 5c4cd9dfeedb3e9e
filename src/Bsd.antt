-- ===== src/Bsd.antt =====
-- BsdMitmService of ldn_mitm/source/bsd_mitm_service.cpp: here the long waits of Poll and Select, which
-- are cut into slices. `fwd j slice` is what the j-th forwarded call answers. The children are Wake
-- (the answer to a game with a queued frame), Poll and Select (each as a whole), Receive (RecvFrom, Recv,
-- Read) and Send (SendTo, Connect).
pub mod Waits
pub mod Wake
pub mod Poll
pub mod Select
pub mod Receive
pub mod Send
pub mod Relayed
use ldn_mitm.Base.{
  ℕ, zero, suc, ◌+◌, ◌-◌, List, [], ◌∷◌, Bool, true, false, not, Option, none, some, if◌then◌else◌,
  ◌==◌, ltb, leb, ◌*◌, ◌/◌, ◌&&◌,
}

abbrev pub wait_cap_ms : ℕ
wait_cap_ms = 1000

abbrev pub forward_max_ms : ℕ
forward_max_ms = 60000

-- The answer of the real service: a positive number of events, none, an error, or no answer at all.
pub data PollReply : Type 0 where
  events poll_error : ℕ → PollReply
  quiet ipc_failed : PollReply

abbrev pub is_quiet : PollReply → Bool
is_quiet quiet = true
is_quiet _ = false

-- What the game gets, and the slices that were waited for, in their order.
pub record Waited : Type 0 where
  pub reply : PollReply
  pub slices : List ℕ

-- The loop over a finite timeout with `remaining` milliseconds to go.
unfoldable pub poll_slices : (ℕ → ℕ → PollReply) → ℕ → ℕ → ℕ → Waited
poll_slices fwd zero j remaining = record { reply = ipc_failed; slices = [] }
poll_slices fwd (suc fuel) j remaining =
    let slice = if ltb remaining wait_cap_ms then remaining else wait_cap_ms in
    let more = poll_slices fwd fuel (j + 1) (remaining - slice) in
    if not (is_quiet (fwd j slice))
    then record { reply = fwd j slice; slices = slice ∷ [] }
    else if remaining - slice == 0
    then record { reply = quiet; slices = slice ∷ [] }
    else record more { slices = slice ∷ more.slices }

-- Poll when no queued frame answers it (Poll has the whole); `none` is an infinite timeout. The result `none` forwards the
-- call as it is. A millisecond per round is fuel enough.
unfoldable pub poll_waiting : (ℕ → ℕ → PollReply) → Option ℕ → Option Waited
poll_waiting fwd none = some (record { reply = fwd 0 wait_cap_ms; slices = wait_cap_ms ∷ [] })
poll_waiting fwd (some timeout) =
    if leb timeout forward_max_ms then none else some (poll_slices fwd timeout 0 timeout)

-- Select's timeout; `overdue` is negative in all.
pub data SelectTimeout : Type 0 where
  infinite overdue : SelectTimeout
  finite : ℕ → ℕ → SelectTimeout

abbrev pub wait_ms : ℕ → ℕ → ℕ
wait_ms sec usec = sec * 1000 + usec / 1000

-- Select when no queued frame answers it (Select has the whole). An overdue wait is forwarded once, with what is left of it;
-- `late` is the answer.
unfoldable pub select_waiting : (ℕ → ℕ → PollReply) → PollReply → SelectTimeout → Option Waited
select_waiting fwd late infinite =
    some (record { reply = fwd 0 wait_cap_ms; slices = wait_cap_ms ∷ [] })
select_waiting fwd late overdue = some (record { reply = late; slices = [] })
select_waiting fwd late (finite sec usec) =
    if leb sec (forward_max_ms / 1000) && leb (wait_ms sec usec) forward_max_ms
    then none
    else some (poll_slices fwd (wait_ms sec usec) 0 (wait_ms sec usec))
