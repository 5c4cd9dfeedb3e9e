-- ===== src/Tests/Streams.antt =====
-- Streams of the TCP tunnel on two consoles: a redirected connect, its bytes, and a run of steps.
use ldn_mitm.Base.{ℕ, ◌≡◌, refl, List, [], ◌∷◌, true, false, none, some, arith}
use ldn_mitm.Registry.{has_peer}
use ldn_mitm.TcpRelay.{
  Tunnel, to_peer, to_socket, took, blank_stream, alloc, find_by_id, find_by_game_fd,
  on_tunnel_frame, started,
}
use ldn_mitm.TcpRelay.Pump.{Ready, got, pump_one, stop}
use ldn_mitm.TcpRelay.Redirect.{listening, no_proxy, redirect_connect, new_redirect, start_stream}
use ldn_mitm.TcpRelay.Flow.{PendingFits}
use ldn_mitm.TcpRelay.Reach.{starts, follows, frame_arrives, pump_stops, Reach-PendingFits}
use ldn_mitm.TcpRelay.Delivery.{pump_one-on_tunnel_frame}
use ldn_mitm.TcpRelay.Again.{redirect_connect_twice}
use ldn_mitm.Tests.Fixtures.{host_ip, guest_ip, guest_session}

abbrev none_open : Tunnel
none_open = record { streams = []; next_id = 1; done = [] }

-- the guest's tunnel, with its game's stream 5 to the host
abbrev calling : Tunnel
calling = record none_open {
  streams =
      record blank_stream {
        used = true;
        originator = true;
        id = 5;
        peer_ip = host_ip;
        sock = some 8;
      }
      ∷ [];
}

-- the host's, which has one byte waiting
abbrev called : Tunnel
called = record none_open {
  streams =
      blank_stream
      ∷ record blank_stream {
        used = true;
        id = 5;
        peer_ip = guest_ip;
        sock = some 9;
        pending = 1 ∷ [];
      }
      ∷ [];
}

abbrev two_bytes : Ready
two_bytes = record {
  socket = record { owner = 0; is_listener = false; fd = 8 };
  readable = true;
  hung_up = false;
  accepted = none;
  received = got 2 (3 ∷ []);
  answers = [];
}

pump_one-on_tunnel_frame_example :
    (frame : List ℕ) × ((pump_one calling two_bytes).done ≡ to_peer host_ip frame ∷ [])
    × ((on_tunnel_frame none (took 3 ∷ []) called guest_ip frame).done
        ≡ to_socket (some 9) (1 ∷ 2 ∷ 3 ∷ []) ∷ [])
unfolding find_by_id
pump_one-on_tunnel_frame_example =
    pump_one-on_tunnel_frame calling called two_bytes 2 (3 ∷ []) none guest_ip 1 9 refl refl refl
      refl refl refl (omega arith) (omega arith) refl (omega arith) refl (omega arith)

abbrev dialled : Tunnel
dialled =
    (redirect_connect true guest_session (started none_open) (listening 20 4000) (some (0, 0)) 8
      host_ip 80).0

redirect_connect_twice_example :
    redirect_connect true guest_session dialled (no_proxy none) none 8 host_ip 80 ≡ (dialled, none)
unfolding redirect_connect has_peer find_by_game_fd new_redirect start_stream alloc
redirect_connect_twice_example =
    redirect_connect_twice true guest_session (started none_open) dialled (listening 20 4000)
      (no_proxy none) (some (0, 0)) none (0, 0) 8 host_ip 80 refl

abbrev after_open : Tunnel
after_open =
    on_tunnel_frame (some 30) [] (started none_open) guest_ip (1 ∷ 0 ∷ 2 ∷ 0 ∷ 80 ∷ 0 ∷ 0 ∷ 0 ∷ [])

Reach-PendingFits_example : PendingFits (stop after_open).streams
Reach-PendingFits_example = Reach-PendingFits none_open (stop after_open) (
    follows none_open after_open (stop after_open)
      (follows none_open (started none_open) after_open (starts none_open) (
        frame_arrives (some 30) [] (started none_open) guest_ip
          (1 ∷ 0 ∷ 2 ∷ 0 ∷ 80 ∷ 0 ∷ 0 ∷ 0 ∷ [])))
      (pump_stops after_open))
