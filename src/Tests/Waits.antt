-- ===== src/Tests/Waits.antt =====
-- A Poll of 61.5 seconds on a descriptor with an event in the third second.
use ldn_mitm.Base.{ℕ, ◌≡◌, ◌≤◌, refl, List, [], ◌∷◌, true, none, some, if◌then◌else◌, ◌==◌, arith}
use ldn_mitm.GameRx.{initial, has_data}
use ldn_mitm.Bsd.{PollReply, events, quiet, is_quiet, Waited}
use ldn_mitm.Bsd.Wake.{PollFd, poll_wakes}
use ldn_mitm.Bsd.Poll.{waited, poll}
use ldn_mitm.Bsd.Waits.{sum, AllWithin, IsAnswer, poll-IsWait}

abbrev third : ℕ → ℕ → PollReply
third j slice = if j == 2 then events 1 else quiet

abbrev one_fd : List PollFd
one_fd = record { fd = some 5; revents = 0 } ∷ []

poll-IsWait_example :
    (w : Waited) × (poll true initial one_fd none third (some 61500) ≡ waited w)
    × IsAnswer third 0 w.slices w.reply
    × AllWithin 1000 w.slices
    × (sum w.slices ≤ 61500)
    × (is_quiet w.reply ≡ true → sum w.slices ≡ 61500)
unfolding poll_wakes has_data
poll-IsWait_example = poll-IsWait true initial one_fd none third 61500 refl (omega arith)
