-- ===== src/Bsd/Wake/Count.antt =====
-- The reply of a woken Poll: its entries beside its count.
use ldn_mitm.Base.{
  ℕ, ◌+◌, ◌%◌, ◌≡◌, List, [], ◌∷◌, Bool, true, false, ◌&&◌, ◌||◌, some, if◌then◌else◌, ◌==◌,
  Bool-cases, inl, inr, arith,
}
use ldn_mitm.Bsd.Wake.{PollFd, is_fd, has_fd, mark_fd, poll_wake}

-- The entries with an event, which poll() counts.
abbrev pub count_ready : List PollFd → ℕ
count_ready [] = 0
count_ready (p ∷ ps) = (if p.revents == 0 then 0 else 1) + count_ready ps

-- Some entry of this descriptor has POLLIN.
abbrev pub is_readable : ℕ → List PollFd → Bool
is_readable gfd [] = false
is_readable gfd (p ∷ ps) = (is_fd gfd p.fd && p.revents % 2 == 1) || is_readable gfd ps

mark_fd-count :
    (gfd : ℕ) (fds : List PollFd) (ret : ℕ)
    → has_fd gfd fds ≡ true
    → let (fds', n) = mark_fd gfd fds ret in
      (count_ready fds' + ret ≡ count_ready fds + n) × (is_readable gfd fds' ≡ true)
unfolding mark_fd has_fd
mark_fd-count gfd [] ret h = absurd (ground arith)
mark_fd-count gfd (p ∷ ps) ret h = elim (Bool-cases (is_fd gfd p.fd)) [
  | inl e ↦ ground arith
  | inr e ↦ ground (arith, mark_fd-count gfd ps ret)
]

-- When the real poll counted its ready descriptors rightly and reports on the game's socket, the
-- woken Poll's count is again that of the entries with an event, and the game's socket is readable.
pub poll_wake-count_ready :
    (gfd : ℕ) (fds_out : List PollFd)
    → has_fd gfd fds_out ≡ true
    → let (fds', ret) = poll_wake gfd (some (count_ready fds_out)) fds_out in
      (ret ≡ some (count_ready fds')) × (is_readable gfd fds' ≡ true)
unfolding poll_wake
poll_wake-count_ready gfd fds_out h =
    let (c, r) = mark_fd-count gfd fds_out (count_ready fds_out) h in (ground (arith, c), r)
