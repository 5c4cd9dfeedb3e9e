-- ===== src/TcpRelay/Flow.antt =====
-- The order of a stream's bytes, and the room of its buffer.
use Prim.{tt}
use ldn_mitm.Base.{
  ℕ, zero, suc, ◌+◌, ◌≡◌, ◌≤◌, refl, ap, ◌∙◌, List, [], ◌∷◌, ◌++◌, false, not, Option, none, some,
  Option-cases, ◌==◌, ltb, length, take, drop, set, get_or, append_assoc, take-append-drop, if-elim,
  byte_at, inl, inr, arith, length-append,
}
use ldn_mitm.TcpRelay.{
  Stream, Tunnel, SendAnswer, took, would_block, broken, Flushed, flush_bytes, flush_pending,
  on_data, on_open, release_at, at_found, on_tunnel_frame, alloc, find_by_id, place_stream,
  unless_found, opened_stream, blank_stream, pending_max, is_up, tunnel_open, tunnel_data,
  tunnel_close,
}

-- However the socket takes them, no byte of a flush is lost, doubled or moved: what the socket took,
-- followed by what still waits, is what waited before.
pub flush_bytes_split :
    (answers : List SendAnswer) (pending : List ℕ)
    → (flush_bytes answers pending).taken ++ (flush_bytes answers pending).rest ≡ pending
unfolding flush_bytes
flush_bytes_split [] pending = refl
flush_bytes_split (would_block ∷ answers) pending = refl
flush_bytes_split (broken ∷ answers) pending = refl
flush_bytes_split (took n ∷ answers) pending =
    if-elim (λ (f : Flushed). f.taken ++ f.rest ≡ pending) (length pending == 0) (λ e. refl)
      (λ e.
        if-elim (λ (f : Flushed). f.taken ++ f.rest ≡ pending) (n == 0) (λ z. refl)
          (λ z.
            append_assoc (take n pending) _ _
            ∙ ap (◌++◌ (take n pending)) (flush_bytes_split answers (drop n pending))
            ∙ take-append-drop n pending))

length-flush_bytes :
    (answers : List SendAnswer) (pending : List ℕ)
    → length (flush_bytes answers pending).rest ≤ length pending
length-flush_bytes answers pending = omega (
  arith,
  ap length (flush_bytes_split answers pending),
  length-append (flush_bytes answers pending).taken (flush_bytes answers pending).rest,
)

-- Every stream's waiting bytes fit its array.
abbrev pub PendingFits : List Stream → Type 0
PendingFits [] = Unit {0}
PendingFits (s ∷ rest) = (length s.pending ≤ pending_max) × PendingFits rest

pub set-PendingFits :
    (ss : List Stream) (i : ℕ) (s : Stream)
    → PendingFits ss
    → length s.pending ≤ pending_max
    → PendingFits (set ss i s)
set-PendingFits [] i s f h = f
set-PendingFits (x ∷ ss) zero s (a, f) h = (h, f)
set-PendingFits (x ∷ ss) (suc i) s (a, f) h = (a, set-PendingFits ss i s f h)

pub get_or-PendingFits :
    (ss : List Stream) (i : ℕ)
    → PendingFits ss
    → length (get_or ss i blank_stream).pending ≤ pending_max
get_or-PendingFits [] i f = omega arith
get_or-PendingFits (x ∷ ss) zero (a, f) = a
get_or-PendingFits (x ∷ ss) (suc i) (a, f) = get_or-PendingFits ss i f

abbrev pub FitsIfAny : Option (List Stream) → Type 0
FitsIfAny none = Unit {0}
FitsIfAny (some ss) = PendingFits ss

pub alloc-FitsIfAny :
    (new : Stream) (ss : List Stream)
    → length new.pending ≤ pending_max
    → PendingFits ss
    → FitsIfAny (alloc new ss)
unfolding alloc
alloc-FitsIfAny new [] h f = tt
alloc-FitsIfAny new (s ∷ rest) h (a, f) =
    if-elim FitsIfAny s.used
      (λ e.
        let ih = alloc-FitsIfAny new rest h f in
        elim (Option-cases (alloc new rest)) [
          | inl n ↦ rw n tt
          | inr (r, k) ↦ rw k (a, rw k at ih)
        ])
      (λ e. (h, f))

pub flush_pending-PendingFits :
    (answers : List SendAnswer) (t : Tunnel) (i : ℕ)
    → PendingFits t.streams
    → PendingFits (flush_pending answers t i).streams
unfolding flush_pending release_at
flush_pending-PendingFits answers t i f =
    let s = get_or t.streams i blank_stream in
    let kept : PendingFits
        (set t.streams i (record s { pending = (flush_bytes answers s.pending).rest })) =
      set-PendingFits t.streams i _ f
        (omega (arith, length-flush_bytes answers s.pending, get_or-PendingFits t.streams i f)) in
    if-elim (λ (x : Tunnel). PendingFits x.streams) (not (is_up s)) (λ e. f)
      (λ e.
        if-elim (λ (x : Tunnel). PendingFits x.streams) (flush_bytes answers s.pending).failed
          (λ k. set-PendingFits _ i blank_stream kept (omega arith)) (λ k. kept))

on_data-PendingFits :
    (answers : List SendAnswer) (t : Tunnel) (bytes : List ℕ) (i : ℕ)
    → PendingFits t.streams
    → PendingFits (on_data answers t bytes i).streams
unfolding on_data release_at
on_data-PendingFits answers t bytes i f =
    let s = get_or t.streams i blank_stream in
    if-elim (λ (x : Tunnel). PendingFits x.streams) (length bytes == 0) (λ e. f)
      (λ e.
        if-elim (λ (x : Tunnel). PendingFits x.streams)
          (ltb pending_max (length s.pending + length bytes))
          (λ k. set-PendingFits t.streams i blank_stream f (omega arith))
          (λ k.
            flush_pending-PendingFits answers _ i
              (set-PendingFits t.streams i _ f (ground (arith, length-append s.pending bytes)))))

place_stream-PendingFits :
    (local : Option ℕ) (t : Tunnel) (src_ip stream : ℕ) (allocated : Option (List Stream))
    → PendingFits t.streams
    → FitsIfAny allocated
    → PendingFits (place_stream local t src_ip stream allocated).streams
unfolding place_stream
place_stream-PendingFits local t src_ip stream none f g = f
place_stream-PendingFits none t src_ip stream (some ss) f g = f
place_stream-PendingFits (some fd) t src_ip stream (some ss) f g = g

unless_found-PendingFits :
    (t new : Tunnel) (found : Option ℕ)
    → PendingFits t.streams
    → PendingFits new.streams
    → PendingFits (unless_found t new found).streams
unless_found-PendingFits t new none f g = g
unless_found-PendingFits t new (some i) f g = f

on_open-PendingFits :
    (local : Option ℕ) (t : Tunnel) (src_ip stream : ℕ)
    → PendingFits t.streams
    → PendingFits (on_open local t src_ip stream).streams
unfolding on_open
on_open-PendingFits local t src_ip stream f =
    unless_found-PendingFits t _ (find_by_id src_ip stream false t.streams) f (
      place_stream-PendingFits local t src_ip stream _ f
        (alloc-FitsIfAny (opened_stream local src_ip stream) t.streams (omega arith) f))

at_found-PendingFits :
    (h : ℕ → Tunnel) (t : Tunnel) (found : Option ℕ)
    → PendingFits t.streams
    → ((i : ℕ) → PendingFits (h i).streams)
    → PendingFits (at_found h t found).streams
at_found-PendingFits h t none f g = f
at_found-PendingFits h t (some i) f g = g i

-- Whatever frame comes from whatever peer, and whatever the local sockets answer, the bytes that
-- wait in each stream still fit its 8192 bytes.
pub on_tunnel_frame-PendingFits :
    (local : Option ℕ) (answers : List SendAnswer) (t : Tunnel) (src_ip : ℕ) (payload : List ℕ)
    → PendingFits t.streams
    → PendingFits (on_tunnel_frame local answers t src_ip payload).streams
unfolding on_tunnel_frame release_at
on_tunnel_frame-PendingFits local answers t src_ip payload f =
    if-elim (λ (x : Tunnel). PendingFits x.streams) (ltb (length payload) 8) (λ e. f)
      (λ e.
        if-elim (λ (x : Tunnel). PendingFits x.streams) (byte_at payload 0 == tunnel_open)
          (λ o. on_open-PendingFits local t src_ip _ f)
          (λ o.
            if-elim (λ (x : Tunnel). PendingFits x.streams) (byte_at payload 0 == tunnel_data)
              (λ d. at_found-PendingFits _ t _ f (λ i. on_data-PendingFits answers t _ i f))
              (λ d.
                if-elim (λ (x : Tunnel). PendingFits x.streams) (byte_at payload 0 == tunnel_close)
                  (λ c.
                    at_found-PendingFits _ t _ f
                      (λ i. set-PendingFits t.streams i blank_stream f (omega arith)))
                  (λ c. f))))
