-- ===== src/Tests/Tunnel.antt =====
-- Frames of the TCP tunnel.
use ldn_mitm.Base.{◌≡◌, refl, [], ◌∷◌, ◌++◌, none, some, arith}
use ldn_mitm.TcpRelay.{Tunnel, took, would_block, flush_bytes, on_open, on_tunnel_frame, started}
use ldn_mitm.TcpRelay.Flow.{flush_bytes_split, PendingFits, on_tunnel_frame-PendingFits}
use ldn_mitm.TcpRelay.Streams.{on_open_twice}
use ldn_mitm.Tests.Fixtures.{guest_ip}

abbrev empty_tunnel : Tunnel
empty_tunnel = started (record { streams = []; next_id = 1; done = [] })

-- The socket takes two bytes, then one, then would block.
flush_bytes_split_example :
    (flush_bytes (took 2 ∷ took 1 ∷ would_block ∷ []) (7 ∷ 8 ∷ 9 ∷ 10 ∷ [])).taken
      ++ (flush_bytes (took 2 ∷ took 1 ∷ would_block ∷ []) (7 ∷ 8 ∷ 9 ∷ 10 ∷ [])).rest
    ≡ 7 ∷ 8 ∷ 9 ∷ 10 ∷ []
flush_bytes_split_example =
    flush_bytes_split (took 2 ∷ took 1 ∷ would_block ∷ []) (7 ∷ 8 ∷ 9 ∷ 10 ∷ [])

flushed_bytes :
    (flush_bytes (took 2 ∷ took 1 ∷ would_block ∷ []) (7 ∷ 8 ∷ 9 ∷ 10 ∷ [])).taken ≡ 7 ∷ 8 ∷ 9 ∷ []
unfolding flush_bytes
flushed_bytes = refl

-- An Open of the peer's stream 2 to port 80.
on_tunnel_frame-PendingFits_example :
    PendingFits
      (on_tunnel_frame
        (some 30)
        []
        empty_tunnel
        guest_ip
        (1 ∷ 0 ∷ 2 ∷ 0 ∷ 80 ∷ 0 ∷ 0 ∷ 0 ∷ [])).streams
on_tunnel_frame-PendingFits_example =
    on_tunnel_frame-PendingFits (some 30) [] empty_tunnel guest_ip
      (1 ∷ 0 ∷ 2 ∷ 0 ∷ 80 ∷ 0 ∷ 0 ∷ 0 ∷ []) (omega arith)

on_open_twice_example :
    let t' = on_open (some 30) empty_tunnel guest_ip 2 in on_open none t' guest_ip 2 ≡ t'
on_open_twice_example = on_open_twice none empty_tunnel guest_ip 2 30
