-- ===== src/Transport/Receive/Delivery.antt =====
-- A game datagram from the console that sends it to the queue of the one that receives it.
use ldn_mitm.Base.{
  ℕ, ◌+◌, ◌*◌, ◌/◌, ◌%◌, List, [], ◌∷◌, ◌++◌, true, not, ◌||◌, some, ◌==◌, ltb, length, ◌≡◌, ◌≢◌,
  ◌<◌, ◌≤◌, arith, take-all, refl, if-elim,
}
use ldn_mitm.Registry.{Snapshot, is_session_peer}
use ldn_mitm.GameRx.{GameRx, push}
use ldn_mitm.Transport.{Transport}
use ldn_mitm.Transport.Wrap.{
  wrap, ip_header, udp_header, be32, send_wrapped, send_game_unicast, virtual_dst, ip_id_game_v2,
  SendResult,
}
use ldn_mitm.Transport.Receive.{
  unshim, inject_from, inject_game_frame, process_ipv4, Received, receive_frame, recv_broadcast,
}

pub length-wrap :
    (src dst sport dport ip_id : ℕ) (payload : List ℕ)
    → length (wrap src dst sport dport ip_id payload) ≡ 28 + length payload
unfolding wrap ip_header udp_header
length-wrap src dst sport dport ip_id payload = omega arith

module _ (t : Transport) (snap : Snapshot) (g : GameRx) (src dst sport dport ip_id : ℕ)
    (payload : List ℕ) (s : src < 4294967296) (p : sport < 65536) (d : dport < 65536)
    (k : length payload < 65500) (i : ip_id < 65536) where
  -- A frame for another port than discovery's and the tunnel's goes to the game.
  process_ipv4-wrap :
      (max : ℕ)
      → dport ≢ 11453
      → dport ≢ 11452
      → process_ipv4 t snap g max (wrap src dst sport dport ip_id payload)
        ≡ (inject_game_frame t snap g (wrap src dst sport dport ip_id payload), Received.nothing)
  unfolding process_ipv4 wrap ip_header udp_header
  process_ipv4-wrap max n m = ground arith

-- The receiver's side: the sender's real address is read from the shim.
inject-wrap :
    (t : Transport) (snap : Snapshot) (g : GameRx) (vsrc vdst real real_dst port : ℕ)
    (bytes : List ℕ)
    → vsrc < 4294967296
    → real < 4294967296
    → port < 65536
    → t.rsrc ≢ 0
    → t.rsrc ≢ real
    → t.vsrc ≢ vsrc
    → is_session_peer snap real ≡ true
    → 0 < length bytes
    → length bytes ≤ 1472
    → inject_game_frame t snap g
        (wrap vsrc vdst port port ip_id_game_v2 (be32 real ++ be32 real_dst ++ bytes))
      ≡ push g (record { src_ip = real; sport = port; dport = port; payload = bytes })
unfolding inject_game_frame inject_from unshim wrap ip_header udp_header
inject-wrap t snap g vsrc vdst real real_dst port bytes v r p nz own echo peer l m =
    let real_back : ((real / 16777216 % 256 * 256 + real / 65536 % 256) * 65536
          + (real / 256 % 256 * 256 + real % 256))
        ≡ real =
      omega arith in
    let vsrc_back : ((vsrc / 16777216 % 256 * 256 + vsrc / 65536 % 256) * 65536
          + (vsrc / 256 % 256 * 256 + vsrc % 256))
        ≡ vsrc =
      omega arith in
    let port_back : (port / 256 % 256 * 256 + port % 256) ≡ port = omega arith in
    rw (real_back, vsrc_back, port_back) (ground arith)

-- One frame of type IPV4, received over an open socket, is processed as an IP packet.
recv_broadcast-ipv4 :
    (t : Transport) (snap : Snapshot) (g g' : GameRx) (max : ℕ) (ip : List ℕ)
    → t.is_open ≡ true
    → length ip ≤ 2047
    → process_ipv4 (record t { ping_misses = 0 }) snap g max ip ≡ (g', Received.nothing)
    → recv_broadcast t snap g max (some (1 ∷ ip))
      ≡ (record t { ping_misses = 0 }, g', Received.nothing)
unfolding recv_broadcast receive_frame
recv_broadcast-ipv4 t snap g g' max ip o l e = rw (take-all 2047 ip l) (
    if-elim (λ out. out ≡ (record t { ping_misses = 0 }, g', Received.nothing)) t.is_open
      (λ yes. rw e) (λ no. absurd (ground arith)))

send_wrapped-frame :
    (a : Transport) (src dst sport dport ip_id : ℕ) (payload : List ℕ)
    → length payload ≤ 1471
    → send_wrapped (λ k. true) a src dst sport dport ip_id payload
      ≡ (a, (1 ∷ wrap src dst sport dport ip_id payload) ∷ [], true)
unfolding send_wrapped
send_wrapped-frame a src dst sport dport ip_id payload m =
    if-elim (λ out. out ≡ (a, (1 ∷ wrap src dst sport dport ip_id payload) ∷ [], true))
      (ltb 1500 (length (wrap src dst sport dport ip_id payload) + 1))
      (λ e. absurd (ground (arith, length-wrap src dst sport dport ip_id payload))) (λ e. refl)

send_game_unicast-frame :
    (a : Transport) (dst port : ℕ) (bytes : List ℕ)
    → a.is_open ≡ true
    → a.rsrc ≢ 0
    → virtual_dst a dst ≢ 0
    → 0 < length bytes
    → length bytes ≤ 1463
    → send_game_unicast (λ k. true) a bytes port dst ≡ (
      a,
      (1
            ∷ wrap a.vsrc
                (virtual_dst a dst)
                port
                port
                ip_id_game_v2
                (be32 a.rsrc ++ be32 dst ++ bytes))
          ∷ [],
      true,
    )
unfolding send_game_unicast
send_game_unicast-frame a dst port bytes o r v l m =
    let payload = be32 a.rsrc ++ be32 dst ++ bytes in
    let target : SendResult =
      (a, (1 ∷ wrap a.vsrc (virtual_dst a dst) port port ip_id_game_v2 payload) ∷ [], true) in
    if-elim (λ out. out ≡ target)
      (not a.is_open || a.rsrc == 0 || length bytes == 0 || ltb 1472 (length bytes))
      (λ e. absurd (ground arith))
      (λ e.
        if-elim (λ out. out ≡ target) (not (virtual_dst a dst == 0))
          (λ k.
            send_wrapped-frame a a.vsrc (virtual_dst a dst) port port ip_id_game_v2 payload
              (omega arith))
          (λ k. absurd (ground arith)))

-- A game datagram of 1 to 1463 bytes, to any 16-bit port but discovery's and the tunnel's, whose
-- destination's virtual address is known (or is the broadcast), goes out in one frame if all sends
-- succeed; an open transport that differs from the sender's in both 32-bit addresses, with the
-- sender among its session's peers, queues for its game the same bytes from the sender's real
-- address and that port, and nothing else changes but the count of missed pings.
pub send_game_unicast-recv_broadcast :
    (a b : Transport) (snap : Snapshot) (g : GameRx) (max dst port : ℕ) (bytes : List ℕ)
    → a.is_open ≡ true
    → b.is_open ≡ true
    → a.vsrc < 4294967296
    → a.rsrc < 4294967296
    → port < 65536
    → port ≢ 11453
    → port ≢ 11452
    → a.rsrc ≢ 0
    → b.rsrc ≢ 0
    → b.rsrc ≢ a.rsrc
    → b.vsrc ≢ a.vsrc
    → virtual_dst a dst ≢ 0
    → is_session_peer snap a.rsrc ≡ true
    → 0 < length bytes
    → length bytes ≤ 1463
    → (f : List ℕ) × (send_game_unicast (λ k. true) a bytes port dst ≡ (a, f ∷ [], true))
      × (recv_broadcast b snap g max (some f) ≡ (
        record b { ping_misses = 0 },
        push g (record { src_ip = a.rsrc; sport = port; dport = port; payload = bytes }),
        Received.nothing,
      ))
send_game_unicast-recv_broadcast a b snap g max dst port bytes oa ob v r p nt nd ra rb own echo vd
      peer l m =
    let payload = be32 a.rsrc ++ be32 dst ++ bytes in
    let packet = wrap a.vsrc (virtual_dst a dst) port port ip_id_game_v2 payload in
    let b' = record b { ping_misses = 0 } in
    let to_game =
      process_ipv4-wrap b' snap g a.vsrc (virtual_dst a dst) port port ip_id_game_v2 payload v p p
        (omega arith) (omega arith) max nt nd in
    let queued =
      inject-wrap b' snap g a.vsrc (virtual_dst a dst) a.rsrc dst port bytes v r p rb own echo peer
        l (omega arith) in
    (
      1 ∷ packet,
      send_game_unicast-frame a dst port bytes oa ra vd l m,
      recv_broadcast-ipv4 b snap g _ max packet ob
          (omega (arith, length-wrap a.vsrc (virtual_dst a dst) port port ip_id_game_v2 payload))
          (rw queued at to_game),
    )
