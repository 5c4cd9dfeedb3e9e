-- ===== src/TcpRelay/Redirect.antt =====
-- RedirectConnect of ldn_mitm/source/tcp_relay.cpp: a game's connect to a relay peer is pointed at a
-- listener of this console, and the peer is told to connect to its own game.
use ldn_mitm.Base.{ℕ, ◌+◌, List, [], ◌∷◌, Bool, true, ◌&&◌, Option, none, some, if◌then◌else◌, u16}
use ldn_mitm.Registry.{Snapshot, has_peer}
use ldn_mitm.TcpRelay.{
  Stream, Tunnel, to_peer, close_socket, blank_stream, find_by_game_fd, alloc, tunnel_frame,
  tunnel_open, owner_sender,
}

-- The local listener: its descriptor and port; or the descriptor that is closed again, if there was one.
pub data Proxy : Type 0 where
  no_proxy : Option ℕ → Proxy
  listening : ℕ → ℕ → Proxy

-- What the real connect answers: ret and bsd_errno; `none` of it is a failed dispatch.
abbrev pub Reply : Type 0
Reply = ℕ × ℕ

-- The stream of a redirected connect
abbrev pub redirected : ℕ → ℕ → ℕ → ℕ → ℕ → Stream
redirected id dst_ip lfd fd local_port = record blank_stream {
  used = true;
  originator = true;
  id = id;
  peer_ip = dst_ip;
  game_fd = some fd;
  local_port = local_port;
  listener = some lfd;
}

-- With a slot and a listener: the id is spent also when the dispatch fails and the slot is released.
unfoldable pub start_stream :
    Tunnel → Option Reply → ℕ → ℕ → ℕ → List Stream → Tunnel × Option Reply
start_stream t none dst_ip dst_port lfd streams =
    (record t { next_id = u16 (t.next_id + 1); done = close_socket (some lfd) ∷ t.done }, none)
start_stream t (some reply) dst_ip dst_port lfd streams = (
  record t {
    streams = streams;
    next_id = u16 (t.next_id + 1);
    done = to_peer dst_ip (tunnel_frame tunnel_open owner_sender t.next_id dst_port []) ∷ t.done;
  },
  some reply,
)

abbrev pub with_slot :
    Tunnel → (List Stream → Tunnel × Option Reply) → Option (List Stream) → Tunnel × Option Reply
with_slot t f none = (t, none)
with_slot t f (some streams) = f streams

-- A first connect of this socket. Without a free slot no listener is made.
unfoldable pub new_redirect : Tunnel → Proxy → Option Reply → ℕ → ℕ → ℕ → Tunnel × Option Reply
new_redirect t (no_proxy lfd) forward fd dst_ip dst_port =
    with_slot t (λ streams. (record t { done = close_socket lfd ∷ t.done }, none))
      (alloc blank_stream t.streams)
new_redirect t (listening lfd port) forward fd dst_ip dst_port =
    with_slot t (start_stream t forward dst_ip dst_port lfd)
      (alloc (redirected t.next_id dst_ip lfd fd port) t.streams)

-- A repeated connect of a socket that is redirected already is forwarded to the same proxy port.
abbrev pub unless_redirected :
    Tunnel → Option Reply → Tunnel × Option Reply → Option ℕ → Tunnel × Option Reply
unless_redirected t forward new none = new
unless_redirected t forward new (some i) = (t, forward)

-- RedirectConnect: `none` in the result forwards the game's call as it is.
unfoldable pub redirect_connect :
    Bool → Snapshot → Tunnel → Proxy → Option Reply → ℕ → ℕ → ℕ → Tunnel × Option Reply
redirect_connect enabled snap t proxy forward fd dst_ip dst_port =
    if enabled && snap.active && has_peer snap.peer_ips dst_ip
    then unless_redirected t forward (new_redirect t proxy forward fd dst_ip dst_port)
        (find_by_game_fd fd t.streams)
    else (t, none)
