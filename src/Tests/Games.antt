-- ===== src/Tests/Games.antt =====
-- The game's calls: a broadcast of the host reaches the guest's game, a woken Poll, a wait.
use ldn_mitm.Base.{ℕ, ◌≡◌, refl, List, [], ◌∷◌, true, false, not, some, leb, arith}
use ldn_mitm.Registry.{Snapshot, is_session_peer, has_peer}
use ldn_mitm.GameRx.{initial, popped, has_data}
use ldn_mitm.GameRx.Ring.{IsValid}
use ldn_mitm.Transport.Receive.{recv_broadcast}
use ldn_mitm.Transport.Wrap.{broadcast_dst}
use ldn_mitm.Bsd.Wake.{PollFd, poll_wake, has_fd}
use ldn_mitm.Bsd.Wake.Count.{count_ready, is_readable, poll_wake-count_ready}
use ldn_mitm.Bsd.Receive.{SocketInfo, sock_dgram, World, recv_from, served, wait_for_game_rx}
use ldn_mitm.Bsd.Receive.Patience.{EndsWithin, wait_for_game_rx-EndsWithin}
use ldn_mitm.Bsd.Send.{send_to}
use ldn_mitm.Bsd.Relayed.{send_to-recv_from}
use ldn_mitm.Tests.Fixtures.{host_transport, guest_transport, host_ip, guest_ip, guest_session}

abbrev host_session : Snapshot
host_session = record { active = true; bcast_ip = 0xC0A800FF; peer_ips = guest_ip ∷ [] }

abbrev game_socket : SocketInfo
game_socket = record { bound = some 12345; sock_type = some sock_dgram }

abbrev initial-IsValid : IsValid initial
initial-IsValid = record { slots = refl; head_in = omega arith; count_in = omega arith }

send_to-recv_from_example :
    (frame : List ℕ) × ((send_to true true
        (λ k. true)
        host_session
        initial
        (some host_transport)
        true
        4
        broadcast_dst
        12345
        (1 ∷ 2 ∷ 3 ∷ [])).frames
      ≡ frame ∷ [])
    × (let arrived = recv_broadcast guest_transport guest_session initial 2048 (some frame) in
        (recv_from true
          (λ k. (arrived.1, guest_session))
          (λ k. false)
          1
          game_socket
          false
          false
          true
          1024).1
        ≡ served (
            popped
              (record { src_ip = host_ip; sport = 12345; dport = 12345; payload = 1 ∷ 2 ∷ 3 ∷ [] })
              1024))
unfolding is_session_peer has_peer
send_to-recv_from_example =
    send_to-recv_from true host_session guest_session initial initial host_transport guest_transport
      4 broadcast_dst 12345 2048 (1 ∷ 2 ∷ 3 ∷ []) game_socket (λ k. false) 1 false 1024 refl
      (omega arith) refl refl refl (omega arith) (omega arith) (omega arith) (omega arith)
      (omega arith) (omega arith) (omega arith) (omega arith) (omega arith) (omega arith) refl
      (omega arith) (omega arith) initial-IsValid refl refl refl (omega arith)

-- descriptor 3 has an error, the game's descriptor 7 nothing
abbrev two_fds : List PollFd
two_fds = record { fd = some 3; revents = 8 } ∷ record { fd = some 7; revents = 0 } ∷ []

poll_wake-count_ready_example :
    let (fds', ret) = poll_wake 7 (some (count_ready two_fds)) two_fds in
    (ret ≡ some (count_ready fds')) × (is_readable 7 fds' ≡ true)
unfolding has_fd
poll_wake-count_ready_example = poll_wake-count_ready 7 two_fds refl

-- a session that ends before the third look
abbrev ending : World
ending k = (initial, record guest_session { active = not (leb 2 k) })

wait_for_game_rx-EndsWithin_example :
    EndsWithin ending (λ k. false) 0 2 (wait_for_game_rx ending (λ k. false) 5 0)
unfolding has_data
wait_for_game_rx-EndsWithin_example =
    wait_for_game_rx-EndsWithin ending (λ k. false) 5 2 (omega arith) refl
