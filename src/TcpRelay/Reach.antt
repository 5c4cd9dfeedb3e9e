-- ===== src/TcpRelay/Reach.antt =====
-- All that happens to the table of streams, in any order: frames of peers, connects of the game, polled
-- sockets, idle rounds, the end.
use ldn_mitm.Base.{
  ℕ, zero, suc, ◌+◌, List, Bool, not, ◌||◌, ◌&&◌, Option, none, some, if◌then◌else◌, if-elim,
  length, get_or, arith,
}
use ldn_mitm.Registry.{Snapshot, has_peer}
use ldn_mitm.TcpRelay.{
  Stream, Tunnel, SendAnswer, blank_stream, max_streams, release_at, flush_pending, alloc,
  find_by_game_fd, on_tunnel_frame, started,
}
use ldn_mitm.TcpRelay.Pump.{
  Ready, RecvAnswer, got, end_of_stream, try_again, recv_broken, still_owns, close_stream,
  accept_game, on_recv, pump_one, flush_from, release_from, stop,
}
use ldn_mitm.TcpRelay.Redirect.{
  Proxy, no_proxy, listening, Reply, redirected, start_stream, with_slot, new_redirect,
  unless_redirected, redirect_connect,
}
use ldn_mitm.TcpRelay.Flow.{
  PendingFits, set-PendingFits, get_or-PendingFits, FitsIfAny, alloc-FitsIfAny,
  flush_pending-PendingFits, on_tunnel_frame-PendingFits,
}

-- Each operation that holds the mutex is one step.
pub data Step : Tunnel → Tunnel → Type 0 where
  frame_arrives :
      (local : Option ℕ) (answers : List SendAnswer) (t : Tunnel) (src_ip : ℕ) (payload : List ℕ)
      → Step t (on_tunnel_frame local answers t src_ip payload)
  game_connects :
      (enabled : Bool) (snap : Snapshot) (t : Tunnel) (proxy : Proxy) (forward : Option Reply)
      (fd dst_ip dst_port : ℕ)
      → Step t (redirect_connect enabled snap t proxy forward fd dst_ip dst_port).0
  socket_ready : (t : Tunnel) (r : Ready) → Step t (pump_one t r)
  round_idle :
      (answers : ℕ → List SendAnswer) (t : Tunnel) → Step t (flush_from answers t 0 max_streams)
  pump_stops : (t : Tunnel) → Step t (stop t)

-- The states that follow a start.
pub data Reach : Tunnel → Tunnel → Type 0 where
  starts : (t : Tunnel) → Reach t (started t)
  follows : (t a b : Tunnel) → Reach t a → Step a b → Reach t b

abbrev Fits : Tunnel → Type 0
Fits t = PendingFits t.streams

release_at-Fits : (t : Tunnel) (i : ℕ) → Fits t → Fits (release_at t i)
unfolding release_at
release_at-Fits t i f = set-PendingFits t.streams i blank_stream f (omega arith)

close_stream-Fits : (t : Tunnel) (i : ℕ) → Fits t → Fits (close_stream t i)
unfolding close_stream
close_stream-Fits t i f = release_at-Fits _ i f

accept_game-Fits :
    (answers : List SendAnswer) (t : Tunnel) (i : ℕ) (accepted : Option ℕ)
    → Fits t
    → Fits (accept_game answers t i accepted)
unfolding accept_game
accept_game-Fits answers t i none f = f
accept_game-Fits answers t i (some fd) f =
    flush_pending-PendingFits answers _ i
      (set-PendingFits t.streams i _ f (get_or-PendingFits t.streams i f))

on_recv-Fits : (t : Tunnel) (i : ℕ) (a : RecvAnswer) → Fits t → Fits (on_recv t i a)
unfolding on_recv
on_recv-Fits t i (got b bytes) f = f
on_recv-Fits t i end_of_stream f = close_stream-Fits t i f
on_recv-Fits t i try_again f = f
on_recv-Fits t i recv_broken f = close_stream-Fits t i f

pump_one-Fits : (t : Tunnel) (r : Ready) → Fits t → Fits (pump_one t r)
unfolding pump_one
pump_one-Fits t r f =
    let i = r.socket.owner in
    let s = get_or t.streams i blank_stream in
    if-elim Fits (not s.used || not (still_owns s r.socket)) (λ e. f)
      (λ e.
        if-elim Fits r.socket.is_listener
          (λ l. if-elim Fits r.readable (λ k. accept_game-Fits r.answers t i r.accepted f) (λ k. f))
          (λ l.
            if-elim Fits r.hung_up (λ h. close_stream-Fits t i f)
              (λ h. if-elim Fits r.readable (λ k. on_recv-Fits t i r.received f) (λ k. f))))

flush_from-Fits :
    (answers : ℕ → List SendAnswer) (t : Tunnel) (i n : ℕ)
    → Fits t
    → Fits (flush_from answers t i n)
unfolding flush_from
flush_from-Fits answers t i zero f = f
flush_from-Fits answers t i (suc n) f =
    flush_from-Fits answers
      (if (get_or t.streams i blank_stream).used then flush_pending (answers i) t i else t) (i + 1)
      n
      (if-elim Fits (get_or t.streams i blank_stream).used
        (λ u. flush_pending-PendingFits (answers i) t i f) (λ u. f))

release_from-Fits : (t : Tunnel) (i n : ℕ) → Fits t → Fits (release_from t i n)
unfolding release_from
release_from-Fits t i zero f = f
release_from-Fits t i (suc n) f =
    release_from-Fits (if (get_or t.streams i blank_stream).used then release_at t i else t) (i + 1)
      n (if-elim Fits (get_or t.streams i blank_stream).used (λ u. release_at-Fits t i f) (λ u. f))

start_stream-Fits :
    (t : Tunnel) (forward : Option Reply) (dst_ip dst_port lfd : ℕ) (streams : List Stream)
    → Fits t
    → PendingFits streams
    → Fits (start_stream t forward dst_ip dst_port lfd streams).0
unfolding start_stream
start_stream-Fits t none dst_ip dst_port lfd streams f g = f
start_stream-Fits t (some reply) dst_ip dst_port lfd streams f g = g

with_slot-Fits :
    (t : Tunnel) (h : List Stream → Tunnel × Option Reply) (allocated : Option (List Stream))
    → Fits t
    → FitsIfAny allocated
    → ((streams : List Stream) → PendingFits streams → Fits (h streams).0)
    → Fits (with_slot t h allocated).0
with_slot-Fits t h none f g k = f
with_slot-Fits t h (some streams) f g k = k streams g

new_redirect-Fits :
    (t : Tunnel) (proxy : Proxy) (forward : Option Reply) (fd dst_ip dst_port : ℕ)
    → Fits t
    → Fits (new_redirect t proxy forward fd dst_ip dst_port).0
unfolding new_redirect
new_redirect-Fits t (no_proxy lfd) forward fd dst_ip dst_port f =
    with_slot-Fits t _ (alloc blank_stream t.streams) f
      (alloc-FitsIfAny blank_stream t.streams (omega arith) f) (λ streams g. f)
new_redirect-Fits t (listening lfd port) forward fd dst_ip dst_port f =
    with_slot-Fits t _ _ f
      (alloc-FitsIfAny (redirected t.next_id dst_ip lfd fd port) t.streams (omega arith) f)
      (λ streams g. start_stream-Fits t forward dst_ip dst_port lfd streams f g)

unless_redirected-Fits :
    (t : Tunnel) (forward : Option Reply) (new : Tunnel × Option Reply) (found : Option ℕ)
    → Fits t
    → Fits new.0
    → Fits (unless_redirected t forward new found).0
unless_redirected-Fits t forward new none f g = g
unless_redirected-Fits t forward new (some i) f g = f

redirect_connect-Fits :
    (enabled : Bool) (snap : Snapshot) (t : Tunnel) (proxy : Proxy) (forward : Option Reply)
    (fd dst_ip dst_port : ℕ)
    → Fits t
    → Fits (redirect_connect enabled snap t proxy forward fd dst_ip dst_port).0
unfolding redirect_connect
redirect_connect-Fits enabled snap t proxy forward fd dst_ip dst_port f =
    if-elim (λ (x : Tunnel × Option Reply). Fits x.0)
      (enabled && snap.active && has_peer snap.peer_ips dst_ip)
      (λ p.
        unless_redirected-Fits t forward _ (find_by_game_fd fd t.streams) f
          (new_redirect-Fits t proxy forward fd dst_ip dst_port f))
      (λ p. f)

Step-Fits : (a b : Tunnel) → Step a b → Fits a → Fits b
unfolding stop
Step-Fits _ _ (frame_arrives local answers t src_ip payload) f =
    on_tunnel_frame-PendingFits local answers t src_ip payload f
Step-Fits _ _ (game_connects enabled snap t proxy forward fd dst_ip dst_port) f =
    redirect_connect-Fits enabled snap t proxy forward fd dst_ip dst_port f
Step-Fits _ _ (socket_ready t r) f = pump_one-Fits t r f
Step-Fits _ _ (round_idle answers t) f = flush_from-Fits answers t 0 max_streams f
Step-Fits _ _ (pump_stops t) f = release_from-Fits t 0 (length t.streams) f

-- Whatever frames come, connects are redirected, sockets have events and rounds pass, in whatever order
-- after Start, the bytes that wait in each stream fit its 8192 bytes.
pub Reach-PendingFits : (t b : Tunnel) → Reach t b → PendingFits b.streams
Reach-PendingFits _ _ (starts t) = omega arith
Reach-PendingFits _ _ (follows t a b r s) = Step-Fits a b s (Reach-PendingFits t a r)
