-- ===== src/TcpRelay.antt =====
-- The TCP tunnel of ldn_mitm/source/tcp_relay.cpp: the table of eight streams, the frames from a peer
-- (OnTunnelFrame) and the bytes that wait for a local socket (FlushPending). A descriptor is an
-- option; `none` stands for -1. What socket calls answer is an argument.
pub mod Flow
pub mod Streams
pub mod Pump
pub mod Redirect
pub mod Reach
pub mod Delivery
pub mod Again
use ldn_mitm.Base.{
  ℕ, zero, suc, ◌+◌, ◌-◌, ◌*◌, ◌/◌, ◌%◌, List, [], ◌∷◌, ◌++◌, Bool, true, false, not, ◌&&◌, ◌||◌,
  Option, none, some, if◌then◌else◌, ◌==◌, ltb, length, take, drop, set, get_or, replicate, byte_at,
  le16_at, min,
}

abbrev pub max_streams : ℕ
max_streams = 8

abbrev pub max_chunk : ℕ
max_chunk = 1024

abbrev pub pending_max : ℕ
pending_max = 8192

-- Stream; `pending` is the first `pending_len` bytes of the array.
pub record Stream : Type 0 where
  pub used : Bool
  pub originator : Bool
  pub id : ℕ
  pub peer_ip : ℕ
  pub game_fd : Option ℕ
  pub local_port : ℕ
  pub listener : Option ℕ
  pub sock : Option ℕ
  pub pending : List ℕ

-- A stream as Release and Start leave it.
abbrev pub blank_stream : Stream
blank_stream = record {
  used = false;
  originator = false;
  id = 0;
  peer_ip = 0;
  game_fd = none;
  local_port = 0;
  listener = none;
  sock = none;
  pending = [];
}

-- What is done outside: a tunnel frame to a peer, bytes taken by a local socket, a closed socket.
pub data TunnelEffect : Type 0 where
  to_peer : ℕ → List ℕ → TunnelEffect
  to_socket : Option ℕ → List ℕ → TunnelEffect
  close_socket : Option ℕ → TunnelEffect

-- g_streams and g_next_id; `done` has the newest effect first.
pub record Tunnel : Type 0 where
  pub streams : List Stream
  pub next_id : ℕ
  pub done : List TunnelEffect

abbrev pub tunnel_open : ℕ
tunnel_open = 1

abbrev pub tunnel_data : ℕ
tunnel_data = 2

abbrev pub tunnel_close : ℕ
tunnel_close = 3

abbrev pub owner_sender : ℕ
owner_sender = 0

abbrev pub owner_receiver : ℕ
owner_receiver = 1

-- the test of FindById
abbrev same_flag : Bool → Bool → Bool
same_flag true b = b
same_flag false b = not b

abbrev pub is_stream : ℕ → ℕ → Bool → Stream → Bool
is_stream peer_ip id originator s =
    s.used && s.id == id && s.peer_ip == peer_ip && same_flag s.originator originator

-- FindById: the position of the first such stream.
unfoldable pub find_by_id : ℕ → ℕ → Bool → List Stream → Option ℕ
find_by_id peer_ip id originator [] = none
find_by_id peer_ip id originator (s ∷ rest) =
    if is_stream peer_ip id originator s
    then some 0
    else elim (find_by_id peer_ip id originator rest) [ none ↦ none | some i ↦ some (suc i) ]

-- FindByGameFd
unfoldable pub find_by_game_fd : ℕ → List Stream → Option ℕ
find_by_game_fd fd [] = none
find_by_game_fd fd (s ∷ rest) =
    if s.used && s.originator && elim s.game_fd [ none ↦ false | some f ↦ f == fd ]
    then some 0
    else elim (find_by_game_fd fd rest) [ none ↦ none | some i ↦ some (suc i) ]

-- OwnerOf
abbrev pub owner_of : Stream → ℕ
owner_of s = if s.originator then owner_sender else owner_receiver

-- Alloc: the first stream that is not in use takes the new one; `none` if all are.
unfoldable pub alloc : Stream → List Stream → Option (List Stream)
alloc new [] = none
alloc new (s ∷ rest) =
    if s.used
    then elim (alloc new rest) [ none ↦ none | some rest' ↦ some (s ∷ rest') ]
    else some (new ∷ rest)

-- SendTunnel: the frame's bytes; no more than MaxChunk of them are data.
unfoldable pub tunnel_frame : ℕ → ℕ → ℕ → ℕ → List ℕ → List ℕ
tunnel_frame type owner stream port bytes =
    let len = min (length bytes) max_chunk in
    type
    ∷ owner
    ∷ stream % 256
    ∷ stream / 256 % 256
    ∷ port % 256
    ∷ port / 256 % 256
    ∷ len % 256
    ∷ len / 256 % 256
    ∷ take max_chunk bytes

-- the Close that a stream sends to its peer
abbrev pub close_frame : Stream → TunnelEffect
close_frame s = to_peer s.peer_ip (tunnel_frame tunnel_close (owner_of s) s.id 0 [])

-- Release, of the stream at this position
unfoldable pub release_at : Tunnel → ℕ → Tunnel
release_at t i =
    let s = get_or t.streams i blank_stream in
    record t {
      streams = set t.streams i blank_stream;
      done = close_socket s.sock ∷ close_socket s.listener ∷ t.done;
    }

-- What one send() on the local socket answers.
pub data SendAnswer : Type 0 where
  took : ℕ → SendAnswer
  would_block broken : SendAnswer

-- What is left of a stream after FlushPending, and the bytes that its socket took.
pub record Flushed : Type 0 where
  pub rest : List ℕ
  pub taken : List ℕ
  pub failed : Bool

-- The loop of FlushPending over a socket that is up, one answer for each send; without a further
-- answer the socket would block.
unfoldable pub flush_bytes : List SendAnswer → List ℕ → Flushed
flush_bytes [] pending = record { rest = pending; taken = []; failed = false }
flush_bytes (would_block ∷ answers) pending = record { rest = pending; taken = []; failed = false }
flush_bytes (broken ∷ answers) pending = record {
  rest = pending;
  taken = [];
  failed = not (length pending == 0);
}
flush_bytes (took n ∷ answers) pending =
    let more = flush_bytes answers (drop n pending) in
    if length pending == 0
    then record { rest = pending; taken = []; failed = false }
    else if n == 0
    then record { rest = pending; taken = []; failed = true }
    else record more { taken = take n pending ++ more.taken }

abbrev pub is_up : Stream → Bool
is_up s = elim s.sock [ none ↦ false | some fd ↦ true ]

-- FlushPending, of the stream at this position
unfoldable pub flush_pending : List SendAnswer → Tunnel → ℕ → Tunnel
flush_pending answers t i =
    let s = get_or t.streams i blank_stream in
    let out = flush_bytes answers s.pending in
    let flushed = record t {
      streams = set t.streams i (record s { pending = out.rest });
      done = to_socket s.sock out.taken ∷ t.done;
    } in
    if not (is_up s)
    then t
    else if out.failed
    then release_at (record flushed { done = close_frame s ∷ flushed.done }) i
    else flushed

-- The rest of case TunnelOpen, with Alloc's result: where ConnectLocal fails, the slot is released.
unfoldable pub place_stream : Option ℕ → Tunnel → ℕ → ℕ → Option (List Stream) → Tunnel
place_stream local t src_ip stream none = t
place_stream none t src_ip stream (some streams) = record t {
  done = to_peer src_ip (tunnel_frame tunnel_close owner_receiver stream 0 []) ∷ t.done;
}
place_stream (some fd) t src_ip stream (some streams) = record t { streams = streams }

abbrev pub unless_found : Tunnel → Tunnel → Option ℕ → Tunnel
unless_found t new none = new
unless_found t new (some i) = t

abbrev pub opened_stream : Option ℕ → ℕ → ℕ → Stream
opened_stream local src_ip stream = record blank_stream {
  used = true;
  id = stream;
  peer_ip = src_ip;
  sock = local;
}

-- case TunnelOpen: `local` is ConnectLocal's answer. A stream that is there already is a duplicate.
unfoldable pub on_open : Option ℕ → Tunnel → ℕ → ℕ → Tunnel
on_open local t src_ip stream =
    unless_found t
      (place_stream local t src_ip stream (alloc (opened_stream local src_ip stream) t.streams))
      (find_by_id src_ip stream false t.streams)

-- case TunnelData, of the stream at this position: too much for its buffer ends the stream.
unfoldable pub on_data : List SendAnswer → Tunnel → List ℕ → ℕ → Tunnel
on_data answers t bytes i =
    let s = get_or t.streams i blank_stream in
    if length bytes == 0
    then t
    else if ltb pending_max (length s.pending + length bytes)
    then release_at (record t { done = close_frame s ∷ t.done }) i
    else flush_pending answers
        (record t { streams = set t.streams i (record s { pending = s.pending ++ bytes }) }) i

-- A handler of a stream, if it was found.
abbrev pub at_found : (ℕ → Tunnel) → Tunnel → Option ℕ → Tunnel
at_found f t none = t
at_found f t (some i) = f i

-- OnTunnelFrame
unfoldable pub on_tunnel_frame : Option ℕ → List SendAnswer → Tunnel → ℕ → List ℕ → Tunnel
on_tunnel_frame local answers t src_ip payload =
    let type = byte_at payload 0 in
    let stream = le16_at payload 2 in
    let ours = byte_at payload 1 == owner_receiver in
    let bytes = take (le16_at payload 6) (drop 8 payload) in
    let found = find_by_id src_ip stream ours t.streams in
    if ltb (length payload) 8
    then t
    else if type == tunnel_open
    then on_open local t src_ip stream
    else if type == tunnel_data
    then at_found (on_data answers t bytes) t found
    else if type == tunnel_close
    then at_found (release_at t) t found
    else t

-- Start: every stream is blank.
abbrev pub started : Tunnel → Tunnel
started t = record t { streams = replicate max_streams blank_stream }
