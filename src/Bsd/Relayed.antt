-- ===== src/Bsd/Relayed.antt =====
-- A game's broadcast on one console, received by the game of another.
use ldn_mitm.Base.{
  ℕ, zero, suc, ◌≡◌, ◌≢◌, ◌<◌, ◌≤◌, refl, ap, ◌∙◌, List, [], ◌∷◌, Bool, true, false, not, ◌&&◌,
  ◌||◌, Option, some, ltb, length, if-elim, arith,
}
use ldn_mitm.Registry.{Snapshot, is_session_peer}
use ldn_mitm.GameRx.{GameRx, Entry, Popped, popped, push, pop, has_data}
use ldn_mitm.GameRx.Ring.{IsValid, contents, slots_from, push-IsValid}
use ldn_mitm.GameRx.Refine.{enqueue, dequeue, push_refines, pop_refines}
use ldn_mitm.Transport.{Transport}
use ldn_mitm.Transport.Wrap.{SendResult, send_game_unicast, send_game_broadcast, broadcast_dst}
use ldn_mitm.Transport.Receive.{recv_broadcast}
use ldn_mitm.Transport.Receive.Delivery.{send_game_unicast-recv_broadcast}
use ldn_mitm.Bsd.Receive.{
  SocketInfo, sock_dgram, is_game_recv_socket, serve, wait_for_game_rx, recv_from, served,
}
use ldn_mitm.Bsd.Send.{Sent, is_broadcast, send_to, send_to_all, bridge_send_game_broadcast}

-- A frame pushed into an empty queue is what the next Pop returns.
push_fresh :
    (g : GameRx) (e : Entry) (max_len : ℕ)
    → IsValid g
    → g.count ≡ 0
    → 0 < length e.payload
    → length e.payload ≤ 1472
    → (has_data (push g e) ≡ true)
      × ((push g e).session_dport ≡ e.dport)
      × ((pop (push g e) max_len).1 ≡ some (popped e max_len))
push_fresh g e max_len v z l m =
    let empty : contents g ≡ [] = ap (slots_from g.ring g.head) z in
    let one : contents (push g e) ≡ e ∷ [] =
      push_refines g e v ∙ rw empty (unfold enqueue in ground arith) in
    let out =
      ap (λ (x : List Entry × Option Popped). x.1)
        (pop_refines (push g e) max_len (push-IsValid g e v)) in
    (
      unfold push has_data in ground arith,
      unfold push in ground arith,
      out ∙ rw one (unfold dequeue in refl),
    )

-- The receiving game's call, when a frame is there.
recv_from-has_data :
    (g : GameRx) (snap : Snapshot) (readable : ℕ → Bool) (looks : ℕ) (info : SocketInfo)
    (dontwait : Bool) (max_len : ℕ) (p : Popped)
    → 0 < looks
    → has_data g ≡ true
    → is_game_recv_socket g info ≡ true
    → (pop g max_len).1 ≡ some p
    → (recv_from true (λ k. (g, snap)) readable looks info false dontwait true max_len).1 ≡ served p
unfolding recv_from serve wait_for_game_rx
recv_from-has_data g snap readable zero info dontwait max_len p l h i o = absurd (omega arith)
recv_from-has_data g snap readable (suc looks) info true max_len p l h i o = rw (i, h, o) refl
recv_from-has_data g snap readable (suc looks) info false max_len p l h i o = rw (i, h, o) refl

is_game_recv_socket-dgram :
    (g : GameRx) (info : SocketInfo) (port : ℕ)
    → g.session_dport ≡ port
    → port ≢ 0
    → info.bound ≡ some port
    → info.sock_type ≡ some sock_dgram
    → is_game_recv_socket g info ≡ true
unfolding is_game_recv_socket
is_game_recv_socket-dgram g info port e n b t = rw (e, b, t) (ground arith)

send_to-frames :
    (want_fanout : Bool) (snap : Snapshot) (g : GameRx) (a : Transport) (fd ip port : ℕ)
    (bytes : List ℕ) (f : List ℕ)
    → snap.active ≡ true
    → 0 < length snap.peer_ips
    → is_broadcast snap ip ≡ true
    → send_game_unicast (λ k. true) a bytes port broadcast_dst ≡ (a, f ∷ [], true)
    → (send_to want_fanout true (λ k. true) snap g (some a) true fd ip port bytes).frames ≡ f ∷ []
unfolding send_to send_to_all bridge_send_game_broadcast send_game_broadcast
send_to-frames want_fanout snap g a fd ip port bytes f act some_peer bcast e =
    if-elim (λ (x : Sent). x.frames ≡ f ∷ []) (not (want_fanout || true))
      (λ n. absurd (ground arith))
      (λ n.
        if-elim (λ (x : Sent). x.frames ≡ f ∷ []) (is_broadcast snap ip)
          (λ b.
            if-elim (λ (x : Sent). x.frames ≡ f ∷ []) (snap.active && ltb 0 (length snap.peer_ips))
              (λ k. ap (λ (r : SendResult). r.1) e) (λ k. absurd (ground arith)))
          (λ b. absurd (ground arith)))

-- In a session with peers a game broadcasts, to any address that means everyone, 1 to 1463 bytes to a
-- port other than 0, discovery's and the tunnel's; the relay is on, its sends succeed, the other
-- console has the sender among its peers and differs from it in both addresses. One frame goes to the
-- relay. Once it has arrived there, at an empty valid queue, a receive of the game's UDP socket with
-- that port, blocking or not, returns the same bytes (cut to its buffer) from the sender's real
-- address and that port.
pub send_to-recv_from :
    (want_fanout : Bool) (snap snap' : Snapshot) (g g' : GameRx) (a b : Transport)
    (fd ip port max_size : ℕ) (bytes : List ℕ) (info : SocketInfo) (readable : ℕ → Bool) (looks : ℕ)
    (dontwait : Bool) (max_len : ℕ)
    → snap.active ≡ true
    → 0 < length snap.peer_ips
    → is_broadcast snap ip ≡ true
    → a.is_open ≡ true
    → b.is_open ≡ true
    → a.vsrc < 4294967296
    → a.rsrc < 4294967296
    → port < 65536
    → port ≢ 11453
    → port ≢ 11452
    → port ≢ 0
    → a.rsrc ≢ 0
    → b.rsrc ≢ 0
    → b.rsrc ≢ a.rsrc
    → b.vsrc ≢ a.vsrc
    → is_session_peer snap' a.rsrc ≡ true
    → 0 < length bytes
    → length bytes ≤ 1463
    → IsValid g'
    → g'.count ≡ 0
    → info.bound ≡ some port
    → info.sock_type ≡ some sock_dgram
    → 0 < looks
    → (frame : List ℕ) × ((send_to want_fanout true
          (λ k. true)
          snap
          g
          (some a)
          true
          fd
          ip
          port
          bytes).frames
        ≡ frame ∷ [])
      × (let arrived = recv_broadcast b snap' g' max_size (some frame) in
          (recv_from true
            (λ k. (arrived.1, snap'))
            readable
            looks
            info
            false
            dontwait
            true
            max_len).1
          ≡ served (
              popped
                (record { src_ip = a.rsrc; sport = port; dport = port; payload = bytes })
                max_len))
send_to-recv_from want_fanout snap snap' g g' a b fd ip port max_size bytes info readable looks
      dontwait max_len act some_peer bcast oa ob v r p nt nd nz ra rb own echo peer l m valid empty
      bound dgram look =
    let e : Entry = record { src_ip = a.rsrc; sport = port; dport = port; payload = bytes } in
    let (frame, out, arrived) =
      send_game_unicast-recv_broadcast a b snap' g' max_size broadcast_dst port bytes oa ob v r p nt
        nd ra rb own echo (omega arith) peer l m in
    let (h, d, o) = push_fresh g' e max_len valid empty l (omega arith) in
    (
      frame,
      send_to-frames want_fanout snap g a fd ip port bytes frame act some_peer bcast out,
      rw arrived (
          recv_from-has_data (push g' e) snap' readable looks info dontwait max_len
            (popped e max_len) look h
            (is_game_recv_socket-dgram (push g' e) info port d nz bound dgram) o),
    )
