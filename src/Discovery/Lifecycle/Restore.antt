-- ===== src/Discovery/Lifecycle/Restore.antt =====
-- The nifm sessions, the MTU and the request after a failed initialize, and after finalize.
use ldn_mitm.Base.{
  ◌+◌, ◌≡◌, ◌≤◌, ◌<◌, ◌⊎◌, refl, ◌∙◌, Bool, true, false, if-elim, Bool-cases, inl, inr, arith,
}
use ldn_mitm.Discovery.{Discovery}
use ldn_mitm.Discovery.Session.{is_success}
use ldn_mitm.Discovery.Lifecycle.{
  Nifm, Answers, release, close_relay, InitResult, initialize, finalize,
}
use ldn_mitm.Discovery.Lifecycle.RelaySession.{held, SameButRelay}
use ldn_mitm.Discovery.Lifecycle.Ended.{initialize-Ended}

again-initialize :
    (a : Answers) (use_relay : Bool) (n : Nifm) (d : Discovery)
    → d.initialized ≡ true
    → is_success (initialize a use_relay n d).2 ≡ true
unfolding initialize
again-initialize a use_relay n d i =
    if-elim (λ (x : InitResult). is_success x.2 ≡ true) d.initialized (λ e. refl)
      (λ e. absurd (ground (arith, i, e)))

-- When no request is open, the relay transport holds no more than there are sessions, and the profile can
-- be read and written back, an initialize that fails leaves every nifm session but the relay
-- transport's, and the profile's MTU, as it found them, and no request; and the relay transport's own
-- session is as before, unless the worker thread could not be created.
pub initialize-Back :
    (a : Answers) (use_relay : Bool) (n : Nifm) (d : Discovery)
    → a.restore_get ≡ true
    → a.restore_set ≡ true
    → n.request_open ≡ false
    → held n ≤ n.sessions
    → let (n', d', rc) = initialize a use_relay n d in
      (is_success rc ≡ true)
      ⊎ ((n'.sessions + held n ≡ n.sessions + held n')
          × (n'.mtu ≡ n.mtu)
          × (n'.request_open ≡ false)
          × ((a.thread ≡ false) ⊎ (n'.relay_session ≡ n.relay_session)))
initialize-Back a use_relay n d get put o h = elim (Bool-cases d.initialized) [
  | inl i ↦ inl (again-initialize a use_relay n d i)
  | inr i ↦ elim (initialize-Ended a use_relay n d i o h) [
    | inl v ↦ inl v.success
    | inr v ↦ inr (v.balance, v.mtu get put, v.request, v.relay)
  ]
]

-- finalize, of a session that holds one nifm session beside the relay transport's
abbrev Finalized : Nifm → InitResult → Type 0
Finalized k out =
    (out.0.sessions + 1 + held k ≡ k.sessions)
    × (out.0.mtu ≡ k.original_mtu)
    × (out.0.request_open ≡ false)
    × (out.0.relay_session ≡ false)
    × (is_success out.2 ≡ true)

finalize-Finalized :
    (turn : Discovery → Discovery) (k : Nifm) (d : Discovery)
    → d.initialized ≡ true
    → held k < k.sessions
    → Finalized k (finalize turn true true k d)
unfolding finalize close_relay release
finalize-Finalized turn k d i h =
    if-elim (Finalized k) d.initialized
      (λ e. (ground (arith, h), ground arith, ground arith, ground arith, ground arith))
      (λ e. absurd (ground (arith, i, e)))

-- With no request open, and the relay transport holding no more than there are sessions, initialize
-- succeeds where it was not initialized; and finalize is called in any initialized state `e`, with the
-- system `k` as initialize left it, but for the relay transport, which may have been closed or opened
-- again, while the profile can be read and written. Then finalize reports success, the nifm sessions are
-- those from before initialize, less the one that a relay transport held then, the profile's MTU is the
-- one from before, and neither the request nor a session of the relay transport is left.
pub finalize-initialize :
    (a : Answers) (use_relay : Bool) (turn : Discovery → Discovery) (n k : Nifm) (d e : Discovery)
    → d.initialized ≡ false
    → n.request_open ≡ false
    → held n ≤ n.sessions
    → is_success (initialize a use_relay n d).2 ≡ true
    → SameButRelay (initialize a use_relay n d).0 k
    → e.initialized ≡ true
    → let (n', d', rc) = finalize turn true true k e in
      (n'.sessions + held n ≡ n.sessions)
      × (n'.mtu ≡ n.mtu)
      × (n'.request_open ≡ false)
      × (n'.relay_session ≡ false)
      × (is_success rc ≡ true)
finalize-initialize a use_relay turn n k d e i o h ok same j =
    elim (initialize-Ended a use_relay n d i o h) [
      | inl v ↦
          let (s, m, q, l, r) =
            finalize-Finalized turn k e j (omega (arith, h, v.balance, same.balance)) in
          (
            omega (arith, s, v.balance, same.balance),
            m ∙ same.original_mtu ∙ v.original_mtu,
            q,
            l,
            r,
          )
      | inr v ↦ absurd (ground (arith, v.failure, ok))
    ]
