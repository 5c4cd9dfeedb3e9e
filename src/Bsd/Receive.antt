-- ===== src/Bsd/Receive.antt =====
-- RecvFrom, Recv and Read: a queued relay frame is served to the game's session socket. While a call
-- waits, other threads go on: `world k` is the queue and the session that it finds in its k-th look.
pub mod Patience
use ldn_mitm.Base.{
  ℕ, zero, suc, ◌+◌, ◌%◌, List, [], ◌∷◌, Bool, true, false, not, ◌&&◌, ◌||◌, Option, none, some,
  if◌then◌else◌, ◌==◌,
}
use ldn_mitm.Registry.{Snapshot}
use ldn_mitm.GameRx.{GameRx, Popped, pop, has_data}

pub data SockType : Type 0 where
  sock_stream sock_dgram sock_other : SockType

-- What getsockname and SO_TYPE answer on the forward session; `none` is a failure.
pub record SocketInfo : Type 0 where
  pub bound : Option ℕ
  pub sock_type : Option SockType

abbrev pub is_dgram : Option SockType → Bool
is_dgram (some sock_dgram) = true
is_dgram _ = false

abbrev pub is_stream_socket : Option SockType → Bool
is_stream_socket (some sock_stream) = true
is_stream_socket _ = false

-- bound != 0 && bound == want
abbrev pub is_bound_to : ℕ → Option ℕ → Bool
is_bound_to want none = false
is_bound_to want (some port) = not (port == 0) && port == want

-- IsGameRecvSocket
unfoldable pub is_game_recv_socket : GameRx → SocketInfo → Bool
is_game_recv_socket g info =
    not (g.session_dport == 0) && is_bound_to g.session_dport info.bound && is_dgram info.sock_type

-- How a wait ends: with a frame, or for the real socket; `waiting` is a wait that goes on after the
-- looks that were counted.
pub data WaitEnd : Type 0 where
  has_frame gives_way : ℕ → WaitEnd
  waiting : WaitEnd

abbrev pub World : Type 0
World = ℕ → GameRx × Snapshot

abbrev pub real_peek_every : ℕ
real_peek_every = 12

-- WaitForGameRx, from the look `slice` on. `readable k` is whether the real socket has data then.
unfoldable pub wait_for_game_rx : World → (ℕ → Bool) → ℕ → ℕ → WaitEnd
wait_for_game_rx world readable zero slice = waiting
wait_for_game_rx world readable (suc looks) slice =
    let rest = wait_for_game_rx world readable looks (slice + 1) in
    if has_data (world slice).0
    then has_frame slice
    else if not (world slice).1.active
    then gives_way slice
    else if slice % real_peek_every == 0 && readable slice
    then gives_way slice
    else rest

-- What the game gets: the call is forwarded as it is, or a frame is served.
pub data Received : Type 0 where
  forwarded still_waiting : Received
  served : Popped → Received

-- MSG_DONTWAIT: only what is queued already
abbrev pub wait_end : World → (ℕ → Bool) → ℕ → Bool → WaitEnd
wait_end world readable looks true = if has_data (world 0).0 then has_frame 0 else gives_way 0
wait_end world readable looks false = wait_for_game_rx world readable looks 0

abbrev pub as_served : Option Popped → Received
as_served none = forwarded
as_served (some p) = served p

-- The Pop at the end of the wait, into a buffer of `max_len` bytes
unfoldable pub serve : World → ℕ → WaitEnd → GameRx × Received
serve world max_len (has_frame k) = let (g, out) = pop (world k).0 max_len in (g, as_served out)
serve world max_len (gives_way k) = ((world k).0, forwarded)
serve world max_len waiting = ((world 0).0, still_waiting)

-- RecvFrom: `addr_room` is whether the address buffer holds a sockaddr_in.
unfoldable pub recv_from :
    Bool → World → (ℕ → Bool) → ℕ → SocketInfo → Bool → Bool → Bool → ℕ → GameRx × Received
recv_from enabled world readable looks info peek dontwait addr_room max_len =
    if enabled && not peek && addr_room && is_game_recv_socket (world 0).0 info
    then serve world max_len (wait_end world readable looks dontwait)
    else ((world 0).0, forwarded)

-- Recv: ServeQueuedPayload, which reports no address
unfoldable pub recv :
    Bool → World → (ℕ → Bool) → ℕ → SocketInfo → Bool → Bool → ℕ → GameRx × Received
recv enabled world readable looks info peek dontwait max_len =
    if enabled && not peek && is_game_recv_socket (world 0).0 info
    then serve world max_len (wait_end world readable looks dontwait)
    else ((world 0).0, forwarded)

-- Read
unfoldable pub read : Bool → World → (ℕ → Bool) → ℕ → SocketInfo → ℕ → GameRx × Received
read enabled world readable looks info max_len =
    if enabled && is_game_recv_socket (world 0).0 info
    then serve world max_len (wait_end world readable looks false)
    else ((world 0).0, forwarded)
