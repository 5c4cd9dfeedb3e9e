-- ===== src/Bsd/Poll.antt =====
-- BsdMitmService::Poll of ldn_mitm/source/bsd_mitm_service.cpp as a whole: a queued relay frame answers
-- it at once; otherwise it is forwarded, or waits in slices.
use ldn_mitm.Base.{ℕ, List, Bool, Option, none, some}
use ldn_mitm.GameRx.{GameRx}
use ldn_mitm.Bsd.{PollReply, Waited, poll_waiting}
use ldn_mitm.Bsd.Wake.{PollFd, poll_wakes, poll_wake}

-- The call is forwarded as it is, has been answered after slices of waiting, has been answered at once
-- with these entries (`none` is a negative return value), or has failed on its way.
pub data PollResult : Type 0 where
  forwarded : PollResult
  waited : Waited → PollResult
  woken : List PollFd → Option ℕ → PollResult
  wake_failed : PollResult

abbrev pub after_wait : Option Waited → PollResult
after_wait none = forwarded
after_wait (some w) = waited w

-- `at_once` is what the real service answers to the timeout 0, none if the call fails.
abbrev pub answer_at_once : ℕ → Option (List PollFd × Option ℕ) → PollResult
answer_at_once gfd none = wake_failed
answer_at_once gfd (some (fds_out, ret)) = let (fds, n) = poll_wake gfd ret fds_out in woken fds n

abbrev pub poll_for :
    Option ℕ → Option (List PollFd × Option ℕ) → (ℕ → ℕ → PollReply) → Option ℕ → PollResult
poll_for none at_once fwd timeout = after_wait (poll_waiting fwd timeout)
poll_for (some gfd) at_once fwd timeout = answer_at_once gfd at_once

-- Poll: `enabled` is relay::IsEnabled(), and the buffers hold the entries asked for.
unfoldable pub poll :
    Bool
    → GameRx
    → List PollFd
    → Option (List PollFd × Option ℕ)
    → (ℕ → ℕ → PollReply)
    → Option ℕ
    → PollResult
poll enabled g fds_in at_once fwd timeout =
    poll_for (poll_wakes enabled g fds_in) at_once fwd timeout
