-- ===== src/Discovery/Poll.antt =====
-- LANDiscovery::loopPoll of ldn_mitm/source/lan_discovery.cpp and Pollable::Poll of
-- ldn_mitm/source/lan_protocol.cpp: the events of one round, socket by socket. What poll, accept and the
-- reading of a packet answer is an argument.
pub mod Refine
use ldn_mitm.Base.{
  ℕ, zero, suc, ◌+◌, List, [], ◌∷◌, Bool, true, false, not, ◌||◌, Option, none, some, if◌then◌else◌,
  ◌==◌,
}
use ldn_mitm.Discovery.{Discovery, Env, Message}
use ldn_mitm.Discovery.Host.{
  on_connect, station_on_read, station_on_close, is_hosting, udp_on_read, udp_on_close,
}
use ldn_mitm.Discovery.Client.{
  is_station, is_station_connected, tcp_on_packet, tcp_note_close, tcp_on_close,
}
use ldn_mitm.Discovery.Relay.{relay_on_read, relay_on_close}

-- revents: POLLHUP or POLLNVAL, POLLERR, POLLIN or POLLPRI
pub record Revents : Type 0 where
  pub gone : Bool
  pub error : Bool
  pub readable : Bool

-- The branches of Poll for one socket; the reader says whether its result is not 0.
unfoldable pub dispatch :
    (Discovery → Discovery × Bool) → (Discovery → Discovery) → Revents → Discovery → Discovery
dispatch on_read on_close r d =
    let (d', failed) = on_read d in
    if r.gone
    then on_close d
    else if r.error
    then d
    else if r.readable
    then (if failed then on_close d' else d')
    else d

-- What a read finds: a packet with its sequence number, not yet a whole one, the peer's orderly end, a
-- failure; on a listener an accepted descriptor, or none.
pub data Input : Type 0 where
  packet : Message → ℕ → Input
  no_packet orderly_end broken : Input
  accepts : Option ℕ → Input

-- LDUdpSocket::onRead
unfoldable pub udp_read : Input → Discovery → Discovery × Bool
udp_read (packet m seq) d = (udp_on_read d m, false)
udp_read no_packet d = (d, false)
udp_read _ d = (d, true)

-- LDTcpSocket::onRead of a station, which notes an orderly end
unfoldable pub from_host_read : Env → Input → Discovery → Discovery × Bool
from_host_read env (packet m seq) d =
    let (d', rc) = tcp_on_packet env d m in (tcp_note_close d' false, not (rc == 0))
from_host_read env no_packet d = (tcp_note_close d false, false)
from_host_read env orderly_end d = (tcp_note_close d true, true)
from_host_read env _ d = (tcp_note_close d false, true)

-- of a host: accept
unfoldable pub accept_read : Input → Discovery → Discovery × Bool
accept_read (accepts (some fd)) d = (on_connect d fd, false)
accept_read _ d = (d, true)

-- LDTcpSocket::onRead
unfoldable pub tcp_read : Env → Input → Discovery → Discovery × Bool
tcp_read env i d =
    if is_station d.state || is_station_connected d.state
    then from_host_read env i d
    else if is_hosting d.state
    then accept_read i d
    else (d, true)

-- LDTcpSocket::onClose
unfoldable pub tcp_close : Discovery → Discovery
tcp_close d = elim d.tcp [ none ↦ d | some t ↦ tcp_on_close d t ]

-- RelayLanSocket::onRead, whose result is always 0
unfoldable pub relay_read : Env → Input → Discovery → Discovery × Bool
relay_read env (packet m seq) d = (relay_on_read env d m seq, false)
relay_read env _ d = (d, false)

-- LanStation::onRead
unfoldable pub station_read : Env → ℕ → Input → Discovery → Discovery × Bool
station_read env n (packet m seq) d =
    let (d', rc) = station_on_read env d n m in (d', not (rc == 0))
station_read env n no_packet d = (d, false)
station_read env n _ d = (d, true)

-- One socket's events and what a read of it would find
pub record Event : Type 0 where
  pub revents : Revents
  pub input : Input

pub record Round : Type 0 where
  pub udp : Event
  pub tcp : Event
  pub relay : Event
  pub stations : List Event

-- The stations' sockets, from the station with number `n` on
unfoldable pub poll_stations : Env → ℕ → List Event → Discovery → Discovery
poll_stations env n [] d = d
poll_stations env n (e ∷ es) d =
    poll_stations env (n + 1) es
      (dispatch (station_read env n e.input) (λ x. station_on_close env x n) e.revents d)

-- loopPoll
unfoldable pub loop_poll : Env → Round → Discovery → Discovery
loop_poll env r d =
    let after_udp = dispatch (udp_read r.udp.input) udp_on_close r.udp.revents d in
    let after_tcp = dispatch (tcp_read env r.tcp.input) tcp_close r.tcp.revents after_udp in
    let after_relay =
      dispatch (relay_read env r.relay.input) relay_on_close r.relay.revents after_tcp in
    if not d.initialized then d else poll_stations env 1 r.stations after_relay
