-- ===== src/Bsd/Select.antt =====
-- BsdMitmService::Select of ldn_mitm/source/bsd_mitm_service.cpp as a whole: a queued relay frame answers
-- it at once; otherwise it is forwarded, or waits in slices.
use ldn_mitm.Base.{ℕ, List, Bool, Option, none, some}
use ldn_mitm.GameRx.{GameRx}
use ldn_mitm.Bsd.{PollReply, Waited, SelectTimeout, select_waiting}
use ldn_mitm.Bsd.Wake.{select_wakes, select_wake}

-- As for Poll; a woken Select answers with its read set.
pub data SelectResult : Type 0 where
  forwarded : SelectResult
  waited : Waited → SelectResult
  woken : List ℕ → Option ℕ → SelectResult
  wake_failed : SelectResult

abbrev pub after_select : Option Waited → SelectResult
after_select none = forwarded
after_select (some w) = waited w

-- `at_once` is the read set and the return value of the real service at a timeout of zero, none if the
-- call fails.
abbrev pub select_at_once : ℕ → Option (List ℕ × Option ℕ) → SelectResult
select_at_once gfd none = wake_failed
select_at_once gfd (some (rd_out, ret)) = let (fds, n) = select_wake gfd ret rd_out in woken fds n

abbrev pub select_for :
    Option ℕ
    → Option (List ℕ × Option ℕ)
    → (ℕ → ℕ → PollReply)
    → PollReply
    → SelectTimeout
    → SelectResult
select_for none at_once fwd late timeout = after_select (select_waiting fwd late timeout)
select_for (some gfd) at_once fwd late timeout = select_at_once gfd at_once

-- Select: `enabled` is relay::IsEnabled(), `out_size` the size of the buffer for the read set.
unfoldable pub select :
    Bool
    → GameRx
    → ℕ
    → List ℕ
    → ℕ
    → Option (List ℕ × Option ℕ)
    → (ℕ → ℕ → PollReply)
    → PollReply
    → SelectTimeout
    → SelectResult
select enabled g nfds rd_in out_size at_once fwd late timeout =
    select_for (select_wakes enabled g nfds rd_in out_size) at_once fwd late timeout
