-- ===== src/TcpRelay/Streams.antt =====
-- The table of streams: an Open that comes twice.
use Prim.{tt}
use ldn_mitm.Base.{
  ℕ, suc, ◌≡◌, refl, List, [], ◌∷◌, false, Option, none, some, Option-cases, if-elim, inl, inr,
  arith,
}
use ldn_mitm.TcpRelay.{
  Stream, Tunnel, alloc, find_by_id, is_stream, place_stream, opened_stream, on_open,
}

-- Where Alloc found a slot, FindById finds the stream.
abbrev FoundIfAny : ℕ → ℕ → Option (List Stream) → Type 0
FoundIfAny src_ip stream none = Unit {0}
FoundIfAny src_ip stream (some ss) = (i : ℕ) × (find_by_id src_ip stream false ss ≡ some i)

find_by_id-cons :
    (src_ip stream : ℕ) (s : Stream) (ss : List Stream)
    → (i : ℕ) × (find_by_id src_ip stream false ss ≡ some i)
    → (i : ℕ) × (find_by_id src_ip stream false (s ∷ ss) ≡ some i)
unfolding find_by_id
find_by_id-cons src_ip stream s ss (i, e) =
    if-elim (λ o. (i : ℕ) × (o ≡ some i)) (is_stream src_ip stream false s) (λ k. (0, refl))
      (λ k. (suc i, rw e))

alloc-FoundIfAny :
    (src_ip stream fd : ℕ) (ss : List Stream)
    → FoundIfAny src_ip stream (alloc (opened_stream (some fd) src_ip stream) ss)
unfolding alloc
alloc-FoundIfAny src_ip stream fd [] = tt
alloc-FoundIfAny src_ip stream fd (s ∷ rest) =
    if-elim (FoundIfAny src_ip stream) s.used
      (λ e.
        let ih = alloc-FoundIfAny src_ip stream fd rest in
        elim (Option-cases (alloc (opened_stream (some fd) src_ip stream) rest)) [
          | inl n ↦ rw n tt
          | inr (r, k) ↦ rw k (find_by_id-cons src_ip stream s r (rw k at ih))
        ])
      (λ e. (0, unfold find_by_id in ground arith))

-- Whether there is a slot does not depend on the stream.
alloc-none : (new other : Stream) (ss : List Stream) → alloc new ss ≡ none → alloc other ss ≡ none
unfolding alloc
alloc-none new other [] e = refl
alloc-none new other (s ∷ rest) e = elim (Option-cases (alloc new rest)) [
  | inl n ↦ ground (arith, alloc-none new other rest n)
  | inr (r, k) ↦ absurd (ground arith)
]

place_again :
    (later : Option ℕ) (t : Tunnel) (src_ip stream fd : ℕ) (allocated : Option (List Stream))
    → find_by_id src_ip stream false t.streams ≡ none
    → alloc (opened_stream (some fd) src_ip stream) t.streams ≡ allocated
    → FoundIfAny src_ip stream allocated
    → let t' = place_stream (some fd) t src_ip stream allocated in
      on_open later t' src_ip stream ≡ t'
unfolding place_stream on_open
place_again later t src_ip stream fd none n e f =
    rw (n, alloc-none _ (opened_stream later src_ip stream) t.streams e)
place_again later t src_ip stream fd (some ss) n e (i, k) = rw k

-- An Open that is handled again, whatever ConnectLocal would answer then, changes nothing, if it
-- could reach the local port the first time.
pub on_open_twice :
    (later : Option ℕ) (t : Tunnel) (src_ip stream fd : ℕ)
    → let t' = on_open (some fd) t src_ip stream in on_open later t' src_ip stream ≡ t'
unfolding on_open
on_open_twice later t src_ip stream fd =
    elim (Option-cases (find_by_id src_ip stream false t.streams)) [
      | inr (i, e) ↦ rw (e, on_open) (rw e)
      | inl e ↦
          rw (e, on_open)
            (place_again later t src_ip stream fd _ e refl
              (alloc-FoundIfAny src_ip stream fd t.streams))
    ]
