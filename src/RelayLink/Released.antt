-- ===== src/RelayLink/Released.antt =====
-- What Open holds of the system in the end.
use ldn_mitm.Base.{
  ℕ, ◌+◌, ◌/◌, ◌%◌, ◌≡◌, ◌≢◌, ◌<◌, ◌⊎◌, inl, inr, refl, sym, ap, ◌∙◌, List, Bool, true, false, not,
  if-elim, ◌==◌, arith,
}
use ldn_mitm.RelayConfig.{Config, bad_client_id}
use ldn_mitm.Discovery.Lifecycle.{Nifm, acquire, release}
use ldn_mitm.RelayLink.{
  Link, LinkAnswers, OpenResult, opened, nifm_failed, open_failed, close_link, connects, target_ip,
  failed, open_socket, open_request, open_link,
}

-- Nothing is held.
pub record IsClosed (l : Link) : Type 0 where
  pub no_socket : l.transport.is_open ≡ false
  pub no_session : l.have_session ≡ false
  pub no_request : l.have_request ≡ false
  pub no_bridge : l.bridge ≡ false

-- One more session is held, the bridge leads here, and the virtual address is 10.13.x.x, but neither a
-- broadcast nor a network address.
pub record IsUp (n n' : Nifm) (l : Link) : Type 0 where
  pub socket : l.transport.is_open ≡ true
  pub session : n'.sessions ≡ n.sessions + 1
  pub bridge : l.bridge ≡ true
  pub network : l.transport.vsrc / 65536 ≡ 0x0A0D
  pub no_broadcast : l.transport.vsrc % 256 ≢ 255
  pub no_zero : l.transport.vsrc % 256 ≢ 0

abbrev pub Settled : Nifm → Nifm × Link × OpenResult → Type 0
Settled n (n', l, r) =
    ((r ≡ opened) × IsUp n n' l) ⊎ ((r ≢ opened) × (n'.sessions ≡ n.sessions) × IsClosed l)

abbrev is_opened : OpenResult → Bool
is_opened opened = true
is_opened _ = false

not_opened : (r : OpenResult) → is_opened r ≡ false → r ≢ opened
not_opened r h e = absurd (ground (arith, ap is_opened e))

acquired :
    (n : Nifm) (ok : Bool) → (acquire n ok).1 ≡ true → (acquire n ok).0.sessions ≡ n.sessions + 1
unfolding acquire
acquired n ok h = ground arith

released : (n : Nifm) (k : ℕ) → n.sessions ≡ k + 1 → (release n).sessions ≡ k
unfolding release
released n k h = ground arith

good_address :
    (id : ℕ)
    → bad_client_id id ≡ false
    → ((0x0A0D0000 + id) % 256 ≢ 255) × ((0x0A0D0000 + id) % 256 ≢ 0)
unfolding bad_client_id
good_address id g =
    let low : (0x0A0D0000 + id) % 256 ≡ id % 256 = omega arith in
    let full : id % 256 ≢ 255 = ground arith in
    let zero_low : id % 256 ≢ 0 = ground arith in
    (λ b. full (sym low ∙ b), λ b. zero_low (sym low ∙ b))

-- A failure after the session was acquired
failed-Settled :
    (n held : Nifm) (l : Link) (r : OpenResult)
    → held.sessions ≡ n.sessions + 1
    → l.have_session ≡ true
    → is_opened r ≡ false
    → Settled n (failed held l r)
unfolding close_link
failed-Settled n held l r h s o = inr (
  not_opened r o,
  rw s (released held n.sessions h),
  record { no_socket = refl; no_session = refl; no_request = refl; no_bridge = refl },
)

open_socket-Settled :
    (id : ℕ) (a : LinkAnswers) (n held : Nifm) (l : Link) (server : ℕ)
    → held.sessions ≡ n.sessions + 1
    → l.have_session ≡ true
    → id < 65536
    → bad_client_id id ≡ false
    → Settled n (open_socket id a held l server)
unfolding open_socket
open_socket-Settled id a n held l server one s i g =
    if-elim (Settled n) (server == 0) (λ k. failed-Settled n held l (open_failed 102) one s refl)
      (λ k.
        if-elim (Settled n) (not a.socket)
          (λ k. failed-Settled n held l (open_failed 100) one s refl)
          (λ k.
            if-elim (Settled n) (not (connects 3 a.connects))
              (λ k. failed-Settled n held l (open_failed 101) one s refl)
              (λ k. inl (
                refl,
                record {
                  socket = refl;
                  session = one;
                  bridge = refl;
                  network = omega arith;
                  no_broadcast = (good_address id g).0;
                  no_zero = (good_address id g).1;
                },
              ))))

open_request-Settled :
    (id : ℕ) (a : LinkAnswers) (n held : Nifm) (l : Link) (server : ℕ)
    → held.sessions ≡ n.sessions + 1
    → l.have_session ≡ true
    → id < 65536
    → bad_client_id id ≡ false
    → Settled n (open_request id a held l server)
unfolding open_request
open_request-Settled id a n held l server one s i g =
    if-elim (Settled n) (not a.create_request) (λ k. failed-Settled n held l nifm_failed one s refl)
      (λ k.
        if-elim (Settled n) (not a.submit) (λ k. failed-Settled n held _ nifm_failed one s refl)
          (λ k. open_socket-Settled id a n held _ server one s i g))

-- Open, on a closed transport and with a good client id of 16 bits: it succeeds with one more nifm
-- session, a socket, the bridge and an address 10.13.x.x that ends in neither 0 nor 255; or it fails, and
-- then holds no session more than before, no request, no socket and no bridge.
pub open_link-Settled :
    (resolve : List ℕ → ℕ) (c : Config) (id : ℕ) (a : LinkAnswers) (n : Nifm) (l : Link)
    → IsClosed l
    → id < 65536
    → bad_client_id id ≡ false
    → Settled n (open_link resolve c id a n l)
unfolding open_link
open_link-Settled resolve c id a n l v i g =
    if-elim (Settled n) (acquire n a.nifm_init).1
      (λ e.
        open_request-Settled id a n (acquire n a.nifm_init).0 (record l { have_session = true })
          (target_ip resolve c) (acquired n a.nifm_init e) refl i g)
      (λ e. inr (not_opened nifm_failed refl, refl, v))
