-- ===== src/TcpRelay/Pump.antt =====
-- PumpThread and Stop of ldn_mitm/source/tcp_relay.cpp: what becomes of the polled sockets of one round.
-- poll, accept and recv are the system's: their answers are arguments.
use ldn_mitm.Base.{
  ℕ, zero, suc, ◌+◌, List, [], ◌∷◌, ◌++◌, Bool, true, false, not, ◌||◌, Option, none, some,
  if◌then◌else◌, ◌==◌, length, set, get_or,
}
use ldn_mitm.TcpRelay.{
  Stream, Tunnel, to_peer, close_socket, SendAnswer, blank_stream, close_frame, release_at,
  flush_pending, tunnel_frame, tunnel_data, owner_of,
}

-- A polled socket: the position of its stream, whether it is the listener, the descriptor.
pub record Polled : Type 0 where
  pub owner : ℕ
  pub is_listener : Bool
  pub fd : ℕ

abbrev pub polled_fd : ℕ → Bool → Option ℕ → List Polled
polled_fd i listening none = []
polled_fd i listening (some fd) = record { owner = i; is_listener = listening; fd = fd } ∷ []

-- The sockets of the streams in use, with the listener first.
unfoldable pub polled_from : ℕ → List Stream → List Polled
polled_from i [] = []
polled_from i (s ∷ rest) =
    let later = polled_from (i + 1) rest in
    if s.used then polled_fd i true s.listener ++ polled_fd i false s.sock ++ later else later

-- recv on a local socket: bytes, the end of the stream, EAGAIN, or another error
pub data RecvAnswer : Type 0 where
  got : ℕ → List ℕ → RecvAnswer
  end_of_stream try_again recv_broken : RecvAnswer

-- A socket with events: POLLIN, or one of POLLERR, POLLHUP and POLLNVAL; and what accept, recv and the
-- sends of a flush answer then.
pub record Ready : Type 0 where
  pub socket : Polled
  pub readable : Bool
  pub hung_up : Bool
  pub accepted : Option ℕ
  pub received : RecvAnswer
  pub answers : List SendAnswer

abbrev pub is_fd_of : ℕ → Option ℕ → Bool
is_fd_of fd none = false
is_fd_of fd (some f) = f == fd

-- The slot still owns this descriptor.
abbrev pub still_owns : Stream → Polled → Bool
still_owns s p = if p.is_listener then is_fd_of p.fd s.listener else is_fd_of p.fd s.sock

-- A Close to the peer, then Release
unfoldable pub close_stream : Tunnel → ℕ → Tunnel
close_stream t i =
    release_at (record t { done = close_frame (get_or t.streams i blank_stream) ∷ t.done }) i

-- the game's connection in place of the listener
unfoldable pub accept_game : List SendAnswer → Tunnel → ℕ → Option ℕ → Tunnel
accept_game answers t i none = t
accept_game answers t i (some fd) =
    let s = get_or t.streams i blank_stream in
    flush_pending answers
      (record t {
        streams = set t.streams i (record s { listener = none; sock = some fd });
        done = close_socket s.listener ∷ t.done;
      })
      i

-- The game's bytes, sent on to the peer
unfoldable pub on_recv : Tunnel → ℕ → RecvAnswer → Tunnel
on_recv t i (got b bytes) =
    let s = get_or t.streams i blank_stream in
    record t {
      done = to_peer s.peer_ip (tunnel_frame tunnel_data (owner_of s) s.id 0 (b ∷ bytes)) ∷ t.done;
    }
on_recv t i end_of_stream = close_stream t i
on_recv t i try_again = t
on_recv t i recv_broken = close_stream t i

-- One polled socket with events
unfoldable pub pump_one : Tunnel → Ready → Tunnel
pump_one t r =
    let i = r.socket.owner in
    let s = get_or t.streams i blank_stream in
    if not s.used || not (still_owns s r.socket)
    then t
    else if r.socket.is_listener
    then (if r.readable then accept_game r.answers t i r.accepted else t)
    else if r.hung_up
    then close_stream t i
    else if r.readable
    then on_recv t i r.received
    else t

-- All of them, in the order of the poll
unfoldable pub pump_ready : Tunnel → List Ready → Tunnel
pump_ready t [] = t
pump_ready t (r ∷ rs) = pump_ready (pump_one t r) rs

-- Without events: every stream in use is flushed.
unfoldable pub flush_from : (ℕ → List SendAnswer) → Tunnel → ℕ → ℕ → Tunnel
flush_from answers t i zero = t
flush_from answers t i (suc n) =
    flush_from answers
      (if (get_or t.streams i blank_stream).used then flush_pending (answers i) t i else t) (i + 1)
      n

-- Stop, when the thread has ended: every stream in use is released.
unfoldable pub release_from : Tunnel → ℕ → ℕ → Tunnel
release_from t i zero = t
release_from t i (suc n) =
    release_from (if (get_or t.streams i blank_stream).used then release_at t i else t) (i + 1) n

unfoldable pub stop : Tunnel → Tunnel
stop t = release_from t 0 (length t.streams)
