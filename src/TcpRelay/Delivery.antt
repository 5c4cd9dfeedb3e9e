-- ===== src/TcpRelay/Delivery.antt =====
-- From the game's socket on one console to the game's socket on the other.
use ldn_mitm.Base.{
  ℕ, ◌+◌, ◌*◌, ◌/◌, ◌%◌, ◌≡◌, ◌≤◌, ◌<◌, refl, ap, ◌∙◌, List, [], ◌∷◌, ◌++◌, append-nil, Bool, true,
  false, not, ◌==◌, Option, some, if◌then◌else◌, length, get_or, get_or-set_self, length-append,
  set, take, take-all, drop, min, ltb, byte_at, le16_at, arith,
}
use ldn_mitm.TcpRelay.{
  Stream, Tunnel, to_peer, to_socket, took, blank_stream, owner_sender, owner_receiver, owner_of,
  tunnel_data, tunnel_frame, find_by_id, flush_bytes, flush_pending, on_data, on_tunnel_frame,
}
use ldn_mitm.TcpRelay.Pump.{Ready, got, pump_one, on_recv}

-- A data frame, taken apart.
tunnel_frame-data :
    (owner stream : ℕ) (bytes : List ℕ)
    → stream < 65536
    → length bytes ≤ 1024
    → let f = tunnel_frame tunnel_data owner stream 0 bytes in
      (byte_at f 0 ≡ 2)
      × (byte_at f 1 ≡ owner)
      × (le16_at f 2 ≡ stream)
      × (take (le16_at f 6) (drop 8 f) ≡ bytes)
      × (ltb (length f) 8 ≡ false)
unfolding tunnel_frame
tunnel_frame-data owner stream bytes s l =
    let len : min (length bytes) 1024 % 256 + min (length bytes) 1024 / 256 % 256 * 256
        ≡ length bytes =
      omega arith in
    (
      refl,
      refl,
      omega arith,
      ap (λ n. take n (take 1024 bytes)) len
          ∙ ap (take (length bytes)) (take-all 1024 bytes l)
          ∙ take-all (length bytes) bytes (omega arith),
      ground arith,
    )

-- A socket with room takes all.
flush_bytes-took :
    (bytes : List ℕ)
    → 0 < length bytes
    → flush_bytes (took (length bytes) ∷ []) bytes ≡ record {
      rest = drop (length bytes) bytes;
      taken = take (length bytes) bytes ++ [];
      failed = false;
    }
unfolding flush_bytes
flush_bytes-took bytes h =
    let nonzero : (length bytes == 0) ≡ false = ground arith in rw nonzero refl

flush_pending-took :
    (t : Tunnel) (i : ℕ) (s : Stream) (fd : ℕ)
    → get_or t.streams i blank_stream ≡ s
    → s.sock ≡ some fd
    → 0 < length s.pending
    → (flush_pending (took (length s.pending) ∷ []) t i).done
      ≡ to_socket (some fd) s.pending ∷ t.done
unfolding flush_pending
flush_pending-took t i s fd e k h =
    let all =
      append-nil (take (length s.pending) s.pending)
      ∙ take-all (length s.pending) s.pending (omega arith) in
    rw (e, k, flush_bytes-took s.pending h, all) refl

-- The receiving side: what waited, and the bytes of the frame, go to the socket in that order.
on_data-took :
    (t : Tunnel) (i : ℕ) (bytes : List ℕ) (fd : ℕ)
    → let s = get_or t.streams i blank_stream in
      i < length t.streams
      → s.sock ≡ some fd
      → 0 < length bytes
      → length s.pending + length bytes ≤ 8192
      → (on_data (took (length (s.pending ++ bytes)) ∷ []) t bytes i).done
        ≡ to_socket (some fd) (s.pending ++ bytes) ∷ t.done
unfolding on_data
on_data-took t i bytes fd l k h m =
    let s = get_or t.streams i blank_stream in
    let s' : Stream = record s { pending = s.pending ++ bytes } in
    let t' : Tunnel = record t { streams = set t.streams i s' } in
    let nonzero : (length bytes == 0) ≡ false = ground arith in
    let room : ltb 8192 (length s.pending + length bytes) ≡ false = ground arith in
    rw (nonzero, room)
      (flush_pending-took t' i s' fd (get_or-set_self t.streams i s' blank_stream l) k
        (omega (arith, h, length-append s.pending bytes)))

owner_flag : (b : Bool) → ((if b then owner_sender else owner_receiver) == owner_receiver) ≡ not b
owner_flag true = refl
owner_flag false = refl

pump_one-got :
    (a : Tunnel) (r : Ready) (c : ℕ) (cs : List ℕ)
    → let s = get_or a.streams r.socket.owner blank_stream in
      s.used ≡ true
      → s.sock ≡ some r.socket.fd
      → r.socket.is_listener ≡ false
      → r.hung_up ≡ false
      → r.readable ≡ true
      → r.received ≡ got c cs
      → (pump_one a r).done
        ≡ to_peer s.peer_ip (tunnel_frame tunnel_data (owner_of s) s.id 0 (c ∷ cs)) ∷ a.done
unfolding pump_one on_recv
pump_one-got a r c cs used sock not_listener up readable received =
    let same : (r.socket.fd == r.socket.fd) ≡ true = ground arith in
    rw (used, not_listener, sock, same, up, readable, received) refl

on_tunnel_frame-data :
    (local : Option ℕ) (t : Tunnel) (src_ip stream : ℕ) (originator : Bool) (i fd : ℕ)
    (bytes : List ℕ)
    → let s = get_or t.streams i blank_stream in
      find_by_id src_ip stream (not originator) t.streams ≡ some i
      → i < length t.streams
      → s.sock ≡ some fd
      → stream < 65536
      → 0 < length bytes
      → length bytes ≤ 1024
      → length s.pending + length bytes ≤ 8192
      → (on_tunnel_frame local (took (length (s.pending ++ bytes)) ∷ []) t src_ip (
          tunnel_frame tunnel_data
            (if originator then owner_sender else owner_receiver)
            stream
            0
            bytes)).done
        ≡ to_socket (some fd) (s.pending ++ bytes) ∷ t.done
unfolding on_tunnel_frame
on_tunnel_frame-data local t src_ip stream originator i fd bytes found l k id h m room =
    let (type, owner, name, data_bytes, long) =
      tunnel_frame-data (if originator then owner_sender else owner_receiver) stream bytes id m in
    rw (long, type, owner, name, data_bytes, owner_flag originator, found)
      (on_data-took t i bytes fd l k h room)

-- A console reads up to 1024 bytes from the socket of one of its streams (which is not hung up), and
-- sends them to the peer in one frame. Where the peer has that stream, with the other side's flag, at
-- some slot with a socket and room for them, the frame gives its socket what waited there and then
-- exactly these bytes, if the socket takes all.
pub pump_one-on_tunnel_frame :
    (a b : Tunnel) (r : Ready) (c : ℕ) (cs : List ℕ) (local : Option ℕ) (src_ip i fd : ℕ)
    → let s = get_or a.streams r.socket.owner blank_stream in
      let s' = get_or b.streams i blank_stream in
      s.used ≡ true
      → s.sock ≡ some r.socket.fd
      → r.socket.is_listener ≡ false
      → r.hung_up ≡ false
      → r.readable ≡ true
      → r.received ≡ got c cs
      → length (c ∷ cs) ≤ 1024
      → s.id < 65536
      → find_by_id src_ip s.id (not s.originator) b.streams ≡ some i
      → i < length b.streams
      → s'.sock ≡ some fd
      → length s'.pending + length (c ∷ cs) ≤ 8192
      → (frame : List ℕ) × ((pump_one a r).done ≡ to_peer s.peer_ip frame ∷ a.done)
        × ((on_tunnel_frame local (took (length (s'.pending ++ c ∷ cs)) ∷ []) b src_ip frame).done
            ≡ to_socket (some fd) (s'.pending ++ c ∷ cs) ∷ b.done)
pump_one-on_tunnel_frame a b r c cs local src_ip i fd used sock not_listener up readable received m
      id found l k room =
    let s = get_or a.streams r.socket.owner blank_stream in
    (
      tunnel_frame tunnel_data (owner_of s) s.id 0 (c ∷ cs),
      pump_one-got a r c cs used sock not_listener up readable received,
      on_tunnel_frame-data local b src_ip s.id s.originator i fd (c ∷ cs) found l k id (omega arith)
          m room,
    )
