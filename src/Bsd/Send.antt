-- ===== src/Bsd/Send.antt =====
-- SendTo: the copies of a LAN broadcast to each peer, and the game's datagrams that go to the relay.
-- The bridge of relay_client.cpp is the open transport, if there is one. Connect's gate stands here too.
use ldn_mitm.Base.{
  ℕ, List, [], Bool, not, ◌&&◌, ◌||◌, Option, none, some, if◌then◌else◌, ◌==◌, ltb, length,
}
use ldn_mitm.Registry.{Snapshot, has_peer}
use ldn_mitm.GameRx.{GameRx, set_game_fd, note_session_port}
use ldn_mitm.Transport.{Transport}
use ldn_mitm.Transport.Wrap.{SendResult, send_game_unicast, send_game_broadcast, broadcast_dst}
use ldn_mitm.Bsd.Receive.{SocketInfo, is_stream_socket}

-- What SendTo leaves: the queue's port and descriptor, the transport, the peers that got a copy on
-- the LAN, and the frames for the relay.
pub record Sent : Type 0 where
  pub rx : GameRx
  pub bridge : Option Transport
  pub copies : List ℕ
  pub frames : List (List ℕ)

abbrev pub through : (Transport → SendResult) → Option Transport → Option Transport × List (List ℕ)
through send none = (none, [])
through send (some t) = let (t', frames, ok) = send t in (some t', frames)

-- BridgeSendGameUnicast and BridgeSendGameBroadcast
unfoldable pub bridge_send_game_unicast :
    (ℕ → Bool) → Option Transport → List ℕ → ℕ → ℕ → Option Transport × List (List ℕ)
bridge_send_game_unicast sends bridge payload dport dst_ip =
    through (λ t. send_game_unicast sends t payload dport dst_ip) bridge

unfoldable pub bridge_send_game_broadcast :
    (ℕ → Bool) → Option Transport → List ℕ → ℕ → Option Transport × List (List ℕ)
bridge_send_game_broadcast sends bridge payload dport =
    through (λ t. send_game_broadcast sends t payload dport) bridge

abbrev pub is_broadcast : Snapshot → ℕ → Bool
is_broadcast snap ip = ip == broadcast_dst || (snap.active && ip == snap.bcast_ip)

abbrev pub loopback_ip : ℕ
loopback_ip = 0x7F000001

-- the session's socket and port, from a send of the game
abbrev pub note_game : GameRx → ℕ → ℕ → GameRx
note_game g fd port = note_session_port (set_game_fd g (some fd)) port

-- the relay's part of a send to one address
unfoldable pub relay_unicast :
    (ℕ → Bool) → Snapshot → GameRx → Option Transport → ℕ → ℕ → ℕ → List ℕ → Sent
relay_unicast sends snap g bridge fd ip port payload =
    let (bridge', frames) = bridge_send_game_unicast sends bridge payload port ip in
    if snap.active && not (ip == 0) && not (ip == loopback_ip) && has_peer snap.peer_ips ip
    then record { rx = note_game g fd port; bridge = bridge'; copies = []; frames = frames }
    else record { rx = g; bridge = bridge; copies = []; frames = [] }

-- a send to everyone, in a session that has peers
unfoldable pub send_to_all :
    Bool → Bool → (ℕ → Bool) → Snapshot → GameRx → Option Transport → ℕ → ℕ → List ℕ → Sent
send_to_all want_fanout want_relay sends snap g bridge fd port payload =
    let copies = if want_fanout then snap.peer_ips else [] in
    let (bridge', frames) = bridge_send_game_broadcast sends bridge payload port in
    if want_relay
    then record { rx = note_game g fd port; bridge = bridge'; copies = copies; frames = frames }
    else record { rx = g; bridge = bridge; copies = copies; frames = [] }

abbrev pub nothing_sent : GameRx → Option Transport → Sent
nothing_sent g bridge = record { rx = g; bridge = bridge; copies = []; frames = [] }

-- SendTo: `inet` is whether the address is a sockaddr_in of AF_INET. The original is always forwarded.
unfoldable pub send_to :
    Bool
    → Bool
    → (ℕ → Bool)
    → Snapshot
    → GameRx
    → Option Transport
    → Bool
    → ℕ
    → ℕ
    → ℕ
    → List ℕ
    → Sent
send_to want_fanout want_relay sends snap g bridge inet fd ip port payload =
    if not inet || not (want_fanout || want_relay)
    then nothing_sent g bridge
    else if is_broadcast snap ip
    then (if snap.active && ltb 0 (length snap.peer_ips)
        then send_to_all want_fanout want_relay sends snap g bridge fd port payload
        else nothing_sent g bridge)
    else if want_relay
    then relay_unicast sends snap g bridge fd ip port payload
    else nothing_sent g bridge

-- Connect: whether the call is handed to tcprelay::RedirectConnect
unfoldable pub connect_redirects : Bool → Bool → SocketInfo → Bool
connect_redirects enabled inet info = enabled && inet && is_stream_socket info.sock_type
