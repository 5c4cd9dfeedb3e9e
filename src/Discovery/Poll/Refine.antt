-- ===== src/Discovery/Poll/Refine.antt =====
-- A round of loopPoll is a sequence of the worker's events.
use ldn_mitm.Base.{ℕ, ◌+◌, List, [], ◌∷◌, Bool, true, false, not, ◌||◌, Option, none, some, if-elim}
use ldn_mitm.Discovery.{Discovery, Env, TcpSocket}
use ldn_mitm.Discovery.Host.{station_on_close, is_hosting, udp_on_close}
use ldn_mitm.Discovery.Client.{is_station, is_station_connected, tcp_on_packet, tcp_on_close}
use ldn_mitm.Discovery.Relay.{relay_on_close}
use ldn_mitm.Discovery.Run.{
  IsStruct, from_relay, from_udp, from_host, from_station, station_accepted, station_closed,
  host_close_seen, host_closed, udp_closed, relay_closed, Reach, here, after,
}
use ldn_mitm.Discovery.Run.Keeps.{Keeps}
use ldn_mitm.Discovery.Run.Invariant.{Reach-Keeps}
use ldn_mitm.Discovery.Poll.{
  Revents, dispatch, Input, packet, no_packet, orderly_end, broken, accepts, udp_read,
  from_host_read, accept_read, tcp_read, tcp_close, relay_read, station_read, Event, Round,
  poll_stations, loop_poll,
}

-- A NetworkInfo that is read has its eight nodes.
abbrev pub IsInput : Input → Type 0
IsInput (packet m seq) = IsStruct m
IsInput i = Unit {0}

pub record IsRound (r : Round) : Type 0 where
  pub udp : IsInput r.udp.input
  pub tcp : IsInput r.tcp.input
  pub relay : IsInput r.relay.input

dispatch-Reach :
    (a : Discovery) (on_read : Discovery → Discovery × Bool) (on_close : Discovery → Discovery)
    (r : Revents) (d : Discovery)
    → ((x : Discovery) → Reach a x → Reach a (on_read x).0)
    → ((x : Discovery) → Reach a x → Reach a (on_close x))
    → Reach a d
    → Reach a (dispatch on_read on_close r d)
unfolding dispatch
dispatch-Reach a on_read on_close r d f g h =
    if-elim (Reach a) r.gone (λ e. g d h)
      (λ e.
        if-elim (Reach a) r.error (λ k. h)
          (λ k.
            if-elim (Reach a) r.readable
              (λ l. if-elim (Reach a) (on_read d).1 (λ x. g (on_read d).0 (f d h)) (λ x. f d h))
              (λ l. h)))

udp_read-Reach :
    (a : Discovery) (i : Input) → IsInput i → (d : Discovery) → Reach a d → Reach a (udp_read i d).0
unfolding udp_read
udp_read-Reach a (packet m seq) s d h = after a d _ h (from_udp d m s)
udp_read-Reach a no_packet s d h = h
udp_read-Reach a orderly_end s d h = h
udp_read-Reach a broken s d h = h
udp_read-Reach a (accepts o) s d h = h

from_host_read-Reach :
    (a : Discovery) (env : Env) (i : Input)
    → IsInput i
    → (d : Discovery) → Reach a d
    → Reach a (from_host_read env i d).0
unfolding from_host_read
from_host_read-Reach a env (packet m seq) s d h =
    let d' = (tcp_on_packet env d m).0 in
    after a d' _ (after a d d' h (from_host env d m s)) (host_close_seen d' false)
from_host_read-Reach a env no_packet s d h = after a d _ h (host_close_seen d false)
from_host_read-Reach a env orderly_end s d h = after a d _ h (host_close_seen d true)
from_host_read-Reach a env broken s d h = after a d _ h (host_close_seen d false)
from_host_read-Reach a env (accepts o) s d h = after a d _ h (host_close_seen d false)

accept_read-Reach :
    (a : Discovery) (i : Input) (d : Discovery) → Reach a d → Reach a (accept_read i d).0
unfolding accept_read
accept_read-Reach a (accepts (some fd)) d h = after a d _ h (station_accepted d fd)
accept_read-Reach a (accepts none) d h = h
accept_read-Reach a (packet m seq) d h = h
accept_read-Reach a no_packet d h = h
accept_read-Reach a orderly_end d h = h
accept_read-Reach a broken d h = h

tcp_read-Reach :
    (a : Discovery) (env : Env) (i : Input)
    → IsInput i
    → (d : Discovery) → Reach a d
    → Reach a (tcp_read env i d).0
unfolding tcp_read
tcp_read-Reach a env i s d h =
    if-elim (λ (x : Discovery × Bool). Reach a x.0)
      (is_station d.state || is_station_connected d.state) (λ e. from_host_read-Reach a env i s d h)
      (λ e.
        if-elim (λ (x : Discovery × Bool). Reach a x.0) (is_hosting d.state)
          (λ k. accept_read-Reach a i d h) (λ k. h))

closed :
    (a d : Discovery) (o : Option TcpSocket)
    → Reach a d
    → Reach a (elim o [ none ↦ d | some t ↦ tcp_on_close d t ])
closed a d none h = h
closed a d (some t) h = after a d _ h (host_closed d t)

tcp_close-Reach : (a d : Discovery) → Reach a d → Reach a (tcp_close d)
unfolding tcp_close
tcp_close-Reach a d h = closed a d d.tcp h

relay_read-Reach :
    (a : Discovery) (env : Env) (i : Input)
    → IsInput i
    → (d : Discovery) → Reach a d
    → Reach a (relay_read env i d).0
unfolding relay_read
relay_read-Reach a env (packet m seq) s d h = after a d _ h (from_relay env d m seq s)
relay_read-Reach a env no_packet s d h = h
relay_read-Reach a env orderly_end s d h = h
relay_read-Reach a env broken s d h = h
relay_read-Reach a env (accepts o) s d h = h

station_read-Reach :
    (a : Discovery) (env : Env) (n : ℕ) (i : Input) (d : Discovery)
    → Reach a d
    → Reach a (station_read env n i d).0
unfolding station_read
station_read-Reach a env n (packet m seq) d h = after a d _ h (from_station env d n m)
station_read-Reach a env n no_packet d h = h
station_read-Reach a env n orderly_end d h = h
station_read-Reach a env n broken d h = h
station_read-Reach a env n (accepts o) d h = h

poll_stations-Reach :
    (a : Discovery) (env : Env) (n : ℕ) (es : List Event) (d : Discovery)
    → Reach a d
    → Reach a (poll_stations env n es d)
unfolding poll_stations
poll_stations-Reach a env n [] d h = h
poll_stations-Reach a env n (e ∷ es) d h =
    poll_stations-Reach a env (n + 1) es
      (dispatch (station_read env n e.input) (λ x. station_on_close env x n) e.revents d)
      (dispatch-Reach a _ _ e.revents d (λ x k. station_read-Reach a env n e.input x k)
        (λ x k. after a x _ k (station_closed env x n)) h)

-- A round is a sequence of the worker's events (a network that is read has its eight nodes).
loop_poll-Reach : (env : Env) (r : Round) (d : Discovery) → IsRound r → Reach d (loop_poll env r d)
unfolding loop_poll
loop_poll-Reach env r d v =
    let udp =
      dispatch-Reach d _ udp_on_close r.udp.revents d (udp_read-Reach d r.udp.input v.udp)
        (λ x k. after d x _ k (udp_closed x)) (here d) in
    let tcp =
      dispatch-Reach d _ tcp_close r.tcp.revents _ (tcp_read-Reach d env r.tcp.input v.tcp)
        (tcp_close-Reach d) udp in
    let relay =
      dispatch-Reach d _ relay_on_close r.relay.revents _
        (relay_read-Reach d env r.relay.input v.relay) (λ x k. after d x _ k (relay_closed x))
        tcp in
    if-elim (Reach d) (not d.initialized) (λ e. here d)
      (λ e. poll_stations-Reach d env 1 r.stations _ relay)

-- So however the sockets of a round are ready, and whatever they bring, it keeps what the events keep.
pub loop_poll-Keeps :
    (env : Env) (r : Round) (d : Discovery) → IsRound r → Keeps d (loop_poll env r d)
loop_poll-Keeps env r d v = Reach-Keeps d (loop_poll env r d) (loop_poll-Reach env r d v)
