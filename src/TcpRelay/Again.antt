-- ===== src/TcpRelay/Again.antt =====
-- A connect that the game repeats on the same socket.
use Prim.{tt}
use ldn_mitm.Base.{
  ℕ, suc, ◌≡◌, refl, ap, List, [], ◌∷◌, Bool, true, false, ◌&&◌, Option, none, some, Option-cases,
  Bool-cases, inl, inr, if-elim, ◌==◌, arith,
}
use ldn_mitm.Registry.{Snapshot, has_peer}
use ldn_mitm.TcpRelay.{Stream, Tunnel, blank_stream, alloc, find_by_game_fd}
use ldn_mitm.TcpRelay.Redirect.{
  Proxy, no_proxy, listening, Reply, redirected, start_stream, with_slot, new_redirect,
  redirect_connect,
}

-- Where a connect was redirected, FindByGameFd finds its stream.
abbrev Found : ℕ → Tunnel × Option Reply → Type 0
Found fd (t, none) = Unit {0}
Found fd (t, some r) = (i : ℕ) × (find_by_game_fd fd t.streams ≡ some i)

abbrev FoundIfAny : ℕ → Option (List Stream) → Type 0
FoundIfAny fd none = Unit {0}
FoundIfAny fd (some ss) = (i : ℕ) × (find_by_game_fd fd ss ≡ some i)

find_by_game_fd-cons :
    (fd : ℕ) (s : Stream) (ss : List Stream)
    → (i : ℕ) × (find_by_game_fd fd ss ≡ some i)
    → (i : ℕ) × (find_by_game_fd fd (s ∷ ss) ≡ some i)
unfolding find_by_game_fd
find_by_game_fd-cons fd s ss (i, e) =
    if-elim (λ o. (i : ℕ) × (o ≡ some i))
      (s.used && s.originator && elim s.game_fd [ none ↦ false | some f ↦ f == fd ])
      (λ k. (0, refl)) (λ k. (suc i, rw e))

alloc-Found :
    (id dst_ip lfd fd port : ℕ) (ss : List Stream)
    → FoundIfAny fd (alloc (redirected id dst_ip lfd fd port) ss)
unfolding alloc
alloc-Found id dst_ip lfd fd port [] = tt
alloc-Found id dst_ip lfd fd port (s ∷ rest) =
    if-elim (FoundIfAny fd) s.used
      (λ e.
        let ih = alloc-Found id dst_ip lfd fd port rest in
        elim (Option-cases (alloc (redirected id dst_ip lfd fd port) rest)) [
          | inl n ↦ rw n tt
          | inr (r, k) ↦ rw k (find_by_game_fd-cons fd s r (rw k at ih))
        ])
      (λ e. (0, unfold find_by_game_fd in ground arith))

start_stream-Found :
    (t : Tunnel) (forward : Option Reply) (dst_ip dst_port lfd fd : ℕ) (streams : List Stream)
    → (i : ℕ) × (find_by_game_fd fd streams ≡ some i)
    → Found fd (start_stream t forward dst_ip dst_port lfd streams)
unfolding start_stream
start_stream-Found t none dst_ip dst_port lfd fd streams f = tt
start_stream-Found t (some reply) dst_ip dst_port lfd fd streams f = f

with_slot-Found :
    (t : Tunnel) (fd : ℕ) (h : List Stream → Tunnel × Option Reply)
    (allocated : Option (List Stream))
    → FoundIfAny fd allocated
    → ((streams : List Stream)
        → (i : ℕ) × (find_by_game_fd fd streams ≡ some i)
        → Found fd (h streams))
    → Found fd (with_slot t h allocated)
with_slot-Found t fd h none f k = tt
with_slot-Found t fd h (some streams) f k = k streams f

no_slot-Found :
    (t u : Tunnel) (fd : ℕ) (allocated : Option (List Stream))
    → Found fd (with_slot t (λ streams. (u, none)) allocated)
no_slot-Found t u fd none = tt
no_slot-Found t u fd (some streams) = tt

new_redirect-Found :
    (t : Tunnel) (proxy : Proxy) (forward : Option Reply) (fd dst_ip dst_port : ℕ)
    → Found fd (new_redirect t proxy forward fd dst_ip dst_port)
unfolding new_redirect
new_redirect-Found t (no_proxy lfd) forward fd dst_ip dst_port =
    no_slot-Found t _ fd (alloc blank_stream t.streams)
new_redirect-Found t (listening lfd port) forward fd dst_ip dst_port =
    with_slot-Found t fd _ _ (alloc-Found t.next_id dst_ip lfd fd port t.streams)
      (λ streams f. start_stream-Found t forward dst_ip dst_port lfd fd streams f)

maybe_again :
    (t : Tunnel) (forward : Option Reply) (fd i : ℕ)
    → find_by_game_fd fd t.streams ≡ some i
    → Found fd (t, forward)
maybe_again t none fd i e = tt
maybe_again t (some r) fd i e = (i, e)

redirect_connect-Found :
    (enabled : Bool) (snap : Snapshot) (t : Tunnel) (proxy : Proxy) (forward : Option Reply)
    (fd dst_ip dst_port : ℕ)
    → Found fd (redirect_connect enabled snap t proxy forward fd dst_ip dst_port)
unfolding redirect_connect
redirect_connect-Found enabled snap t proxy forward fd dst_ip dst_port =
    if-elim (Found fd) (enabled && snap.active && has_peer snap.peer_ips dst_ip)
      (λ p. elim (Option-cases (find_by_game_fd fd t.streams)) [
        | inl e ↦ rw e (new_redirect-Found t proxy forward fd dst_ip dst_port)
        | inr (i, e) ↦ rw e (maybe_again t forward fd i e)
      ])
      (λ p. tt)

again :
    (enabled : Bool) (snap : Snapshot) (t : Tunnel) (proxy : Proxy) (forward : Option Reply)
    (fd dst_ip dst_port i : ℕ)
    → (enabled && snap.active && has_peer snap.peer_ips dst_ip) ≡ true
    → find_by_game_fd fd t.streams ≡ some i
    → redirect_connect enabled snap t proxy forward fd dst_ip dst_port ≡ (t, forward)
unfolding redirect_connect
again enabled snap t proxy forward fd dst_ip dst_port i p e = rw (p, e) refl

redirected_guard :
    (enabled : Bool) (snap : Snapshot) (t t' : Tunnel) (proxy : Proxy) (forward : Option Reply)
    (r : Reply) (fd dst_ip dst_port : ℕ)
    → redirect_connect enabled snap t proxy forward fd dst_ip dst_port ≡ (t', some r)
    → (enabled && snap.active && has_peer snap.peer_ips dst_ip) ≡ true
unfolding redirect_connect
redirected_guard enabled snap t t' proxy forward r fd dst_ip dst_port h =
    elim (Bool-cases (enabled && snap.active && has_peer snap.peer_ips dst_ip)) [
      | inl p ↦ p
      | inr p ↦ absurd (ground (arith, ap (λ (x : Tunnel × Option Reply). x.1) (rw p at h)))
    ]

-- When a connect was redirected, the same connect repeated on the same socket, as a game does that
-- polls it to its end, uses no further stream, sends nothing, and gives the game the real answer.
pub redirect_connect_twice :
    (enabled : Bool) (snap : Snapshot) (t t' : Tunnel) (proxy proxy' : Proxy)
    (forward forward' : Option Reply) (r : Reply) (fd dst_ip dst_port : ℕ)
    → redirect_connect enabled snap t proxy forward fd dst_ip dst_port ≡ (t', some r)
    → redirect_connect enabled snap t' proxy' forward' fd dst_ip dst_port ≡ (t', forward')
redirect_connect_twice enabled snap t t' proxy proxy' forward forward' r fd dst_ip dst_port h =
    let found = redirect_connect-Found enabled snap t proxy forward fd dst_ip dst_port in
    let (i, e) : Found fd (t', some r) = rw h at found in
    again enabled snap t' proxy' forward' fd dst_ip dst_port i
      (redirected_guard enabled snap t t' proxy forward r fd dst_ip dst_port h) e
