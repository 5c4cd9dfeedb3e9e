-- ===== src/Bsd/Wake.antt =====
-- The wake-up of Poll and Select while a relay frame is queued: the real readiness of the other
-- descriptors, with the game's socket made readable. A descriptor is an option; `none` is negative.
pub mod Count
use ldn_mitm.Base.{
  ℕ, zero, suc, ◌+◌, ◌-◌, ◌*◌, ◌/◌, ◌%◌, ◌^◌, List, [], ◌∷◌, Bool, true, false, not, ◌&&◌, ◌||◌,
  Option, none, some, if◌then◌else◌, ◌==◌, ltb, leb, length, get_or, set,
}
use ldn_mitm.GameRx.{GameRx, has_data}

-- struct pollfd
pub record PollFd : Type 0 where
  pub fd : Option ℕ
  pub revents : ℕ

abbrev pub is_fd : ℕ → Option ℕ → Bool
is_fd gfd none = false
is_fd gfd (some n) = n == gfd

-- revents | POLLIN
abbrev pub with_pollin : ℕ → ℕ
with_pollin revents = if revents % 2 == 1 then revents else revents + 1

-- The search for the game's descriptor in the request
unfoldable pub has_fd : ℕ → List PollFd → Bool
has_fd gfd [] = false
has_fd gfd (p ∷ ps) = is_fd gfd p.fd || has_fd gfd ps

-- The loop over the reply: the first entry with the game's descriptor gets POLLIN, and counts if it
-- had no event.
unfoldable pub mark_fd : ℕ → List PollFd → ℕ → List PollFd × ℕ
mark_fd gfd [] ret = ([], ret)
mark_fd gfd (p ∷ ps) ret =
    let (rest, n) = mark_fd gfd ps ret in
    if is_fd gfd p.fd
    then (
      record p { revents = with_pollin p.revents } ∷ ps,
      if p.revents == 0 then ret + 1 else ret,
    )
    else (p ∷ rest, n)

-- The game's descriptor if Poll is to be answered at once: the relay is on, a frame is queued, and
-- the game polls its session socket.
unfoldable pub poll_wakes : Bool → GameRx → List PollFd → Option ℕ
poll_wakes enabled g fds_in =
    if enabled && has_data g
    then elim g.game_fd [ none ↦ none | some gfd ↦ if has_fd gfd fds_in then some gfd else none ]
    else none

-- The answer: `reply` and `fds_out` are those of the forwarded poll with timeout 0; `none` is a
-- negative return value, which is passed on.
unfoldable pub poll_wake : ℕ → Option ℕ → List PollFd → List PollFd × Option ℕ
poll_wake gfd none fds_out = (fds_out, none)
poll_wake gfd (some ret) fds_out = let (fds, n) = mark_fd gfd fds_out ret in (fds, some n)

-- Bit `gfd` of an fd_set: bit gfd % 8 of byte gfd / 8
abbrev pub bit_of : List ℕ → ℕ → Bool
bit_of fds gfd = get_or fds (gfd / 8) 0 / 2 ^ (gfd % 8) % 2 == 1

unfoldable pub set_bit_of : List ℕ → ℕ → List ℕ
set_bit_of fds gfd =
    if bit_of fds gfd then fds else set fds (gfd / 8) (get_or fds (gfd / 8) 0 + 2 ^ (gfd % 8))

-- The same question for Select: `rd_in` is the read set, `out_size` the size of the reply's.
unfoldable pub select_wakes : Bool → GameRx → ℕ → List ℕ → ℕ → Option ℕ
select_wakes enabled g nfds rd_in out_size =
    if enabled && has_data g
    then elim g.game_fd [
      | none ↦ none
      | some gfd ↦
          if ltb gfd nfds
            && ltb (gfd / 8) (length rd_in)
            && ltb (gfd / 8) out_size
            && bit_of rd_in gfd
          then some gfd
          else none
    ]
    else none

unfoldable pub select_wake : ℕ → Option ℕ → List ℕ → List ℕ × Option ℕ
select_wake gfd none rd_out = (rd_out, none)
select_wake gfd (some ret) rd_out =
    (set_bit_of rd_out gfd, some (if bit_of rd_out gfd then ret else ret + 1))
