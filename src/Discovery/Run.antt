-- ===== src/Discovery/Run.antt =====
-- The worker of LANDiscovery in ldn_mitm/source/lan_discovery.cpp: what its sockets bring, one event
-- after another, in any order. Each handler runs under the lock of the round, so it is one step.
pub mod Keeps
pub mod Steps
pub mod Invariant
use ldn_mitm.Base.{ℕ, ◌≡◌, Bool, Option, none, some, length}
use ldn_mitm.Ldn.{NetworkInfo, NodeInfo}
use ldn_mitm.Discovery.{
  Discovery, Env, Message, scan, scan_resp, sync_network, connect, relay_heartbeat, relay_bye,
  Heartbeat, TcpSocket, Station,
}
use ldn_mitm.Discovery.Host.{
  on_connect, station_on_read, station_on_close, udp_on_read, udp_on_close,
}
use ldn_mitm.Discovery.Client.{tcp_on_packet, tcp_note_close, tcp_on_close}
use ldn_mitm.Discovery.Relay.{relay_on_read, relay_on_close}
use ldn_mitm.Discovery.Worker.{worker_round}

-- A NetworkInfo is a structure with an array of eight nodes.
abbrev pub IsStruct : Message → Type 0
IsStruct (scan_resp info) = length info.ldn.nodes ≡ 8
IsStruct (sync_network info) = length info.ldn.nodes ≡ 8
IsStruct m = Unit {0}

-- What one round of the worker does with one socket, and the beacon at its end.
pub data Step : Discovery → Discovery → Type 0 where
  from_relay :
      (env : Env) (d : Discovery) (m : Message) (seq : ℕ)
      → IsStruct m
      → Step d (relay_on_read env d m seq)
  from_udp : (d : Discovery) (m : Message) → IsStruct m → Step d (udp_on_read d m)
  from_host :
      (env : Env) (d : Discovery) (m : Message) → IsStruct m → Step d (tcp_on_packet env d m).0
  from_station :
      (env : Env) (d : Discovery) (n : ℕ) (m : Message) → Step d (station_on_read env d n m).0
  station_accepted : (d : Discovery) (fd : ℕ) → Step d (on_connect d fd)
  station_closed : (env : Env) (d : Discovery) (n : ℕ) → Step d (station_on_close env d n)
  host_close_seen : (d : Discovery) (orderly : Bool) → Step d (tcp_note_close d orderly)
  host_closed : (d : Discovery) (t : TcpSocket) → Step d (tcp_on_close d t)
  udp_closed : (d : Discovery) → Step d (udp_on_close d)
  relay_closed : (d : Discovery) → Step d (relay_on_close d)
  round_ended :
      (env : Env) (path_dead : Bool) (last : ℕ) (d : Discovery)
      → Step d (worker_round env path_dead last d).0

-- The states that such events lead to.
pub data Reach : Discovery → Discovery → Type 0 where
  here : (d : Discovery) → Reach d d
  after : (a b c : Discovery) → Reach a b → Step b c → Reach a c
