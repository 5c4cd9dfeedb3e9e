-- ===== src/Discovery/Lifecycle/RelaySession.antt =====
-- The nifm session that the relay transport holds beside the others, when it is opened and closed.
use ldn_mitm.Base.{ℕ, ◌+◌, ◌≡◌, ◌≤◌, if◌then◌else◌, refl, ◌∙◌, Bool, false, if-elim, arith}
use ldn_mitm.Discovery.Lifecycle.{
  Nifm, Answers, acquire, release, open_relay, close_relay, start_relay,
}

-- The sessions that the relay transport holds
abbrev pub count : Bool → ℕ
count b = if b then 1 else 0

abbrev pub held : Nifm → ℕ
held n = count n.relay_session

-- The other sessions are the same, and so is the profile.
pub record SameButRelay (n n' : Nifm) : Type 0 where
  pub balance : n'.sessions + held n ≡ n.sessions + held n'
  pub mtu : n'.mtu ≡ n.mtu
  pub original_mtu : n'.original_mtu ≡ n.original_mtu

pub close_relay-SameButRelay : (n : Nifm) → held n ≤ n.sessions → SameButRelay n (close_relay n)
unfolding close_relay release
close_relay-SameButRelay n h = record {
  balance = ground (arith, h);
  mtu = ground arith;
  original_mtu = ground arith;
}

no_relay-close_relay : (n : Nifm) → (close_relay n).relay_session ≡ false
unfolding close_relay
no_relay-close_relay n = ground arith

open_relay-SameButRelay :
    (a : Answers) (n : Nifm) → n.relay_session ≡ false → SameButRelay n (open_relay a n).0
unfolding open_relay acquire release
open_relay-SameButRelay a n h = record {
  balance = ground (arith, h);
  mtu = ground arith;
  original_mtu = ground arith;
}

pub start_relay-SameButRelay :
    (a : Answers) (use_relay : Bool) (n : Nifm) (before : Bool)
    → held n ≤ n.sessions
    → SameButRelay n (start_relay a use_relay n before).0
unfolding start_relay
start_relay-SameButRelay a use_relay n before h =
    if-elim (λ (x : Nifm × Bool). SameButRelay n x.0) use_relay
      (λ u.
        let c = close_relay-SameButRelay n h in
        let o = open_relay-SameButRelay a (close_relay n) (no_relay-close_relay n) in
        record {
          balance = omega (arith, c.balance, o.balance);
          mtu = o.mtu ∙ c.mtu;
          original_mtu = o.original_mtu ∙ c.original_mtu;
        })
      (λ u. record { balance = refl; mtu = refl; original_mtu = refl })
