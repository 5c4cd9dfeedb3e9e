-- ===== src/Discovery/Lifecycle/Ended.antt =====
-- How initialize ends: the nifm sessions, the relay transport's own, the MTU and the request.
use ldn_mitm.Base.{
  ℕ, ◌+◌, ◌≡◌, ◌≤◌, ◌⊎◌, refl, sym, ap, ◌∙◌, Bool, true, false, not, ◌&&◌, ◌==◌, if-elim,
  Bool-cases, inl, inr, arith,
}
use ldn_mitm.Discovery.{Discovery}
use ldn_mitm.Discovery.Session.{Outcome, system_failure, is_success}
use ldn_mitm.Discovery.Lifecycle.{
  Nifm, Answers, acquire, release, desired_mtu, restore_mtu, close_request, give_up, start_relay,
  start_worker, InitResult, guarded, init_session, initialize,
}
use ldn_mitm.Discovery.Lifecycle.RelaySession.{count, held, SameButRelay, start_relay-SameButRelay}

-- How initialize ended from `n` on, with `more` sessions kept if it succeeded
pub record Started (more : ℕ) (n : Nifm) (out : InitResult) : Type 0 where
  pub success : is_success out.2 ≡ true
  pub balance : out.0.sessions + held n ≡ n.sessions + more + held out.0
  pub original_mtu : out.0.original_mtu ≡ n.original_mtu
  pub initialized : out.1.initialized ≡ true

pub record Failed (a : Answers) (n : Nifm) (out : InitResult) : Type 0 where
  pub failure : is_success out.2 ≡ false
  pub balance : out.0.sessions + held n ≡ n.sessions + held out.0
  pub mtu : a.restore_get ≡ true → a.restore_set ≡ true → out.0.mtu ≡ n.original_mtu
  pub request : out.0.request_open ≡ false
  pub relay : (a.thread ≡ false) ⊎ (out.0.relay_session ≡ n.relay_session)

abbrev pub Ended : Answers → ℕ → Nifm → InitResult → Type 0
Ended a more n out = Started more n out ⊎ Failed a n out

-- The saved MTU is the one to go back to, unless it was not changed and is the profile's.
abbrev IsSaved : Bool → Nifm → Type 0
IsSaved changed n = (changed ≡ true) ⊎ (n.mtu ≡ n.original_mtu)

module _ (a : Answers) (changed : Bool) where
  mtu-restore_mtu :
      (n : Nifm)
      → IsSaved changed n
      → a.restore_get ≡ true
      → a.restore_set ≡ true
      → (restore_mtu a changed n).mtu ≡ n.original_mtu
  unfolding restore_mtu
  mtu-restore_mtu n (inl c) g s = ground arith
  mtu-restore_mtu n (inr c) g s = ground arith

  rest-restore_mtu :
      (n : Nifm)
      → ((restore_mtu a changed n).sessions ≡ n.sessions)
        × ((restore_mtu a changed n).request_open ≡ n.request_open)
        × ((restore_mtu a changed n).relay_session ≡ n.relay_session)
  unfolding restore_mtu
  rest-restore_mtu n = (ground arith, ground arith, ground arith)

  -- An error path before the relay transport is opened, or after it
  restored-Failed :
      (more : ℕ) (n k : Nifm) (d : Discovery) (rc : Outcome)
      → SameButRelay n k
      → IsSaved changed n
      → is_success rc ≡ false
      → k.request_open ≡ false
      → (a.thread ≡ false) ⊎ (k.relay_session ≡ n.relay_session)
      → Ended a more n (restore_mtu a changed k, d, rc)
  restored-Failed more n k d rc same saved f q relay =
      let (s, r, l) = rest-restore_mtu k in
      let saved' : IsSaved changed k = elim saved [
        | inl c ↦ inl c
        | inr c ↦ inr (same.mtu ∙ c ∙ sym same.original_mtu)
      ] in
      inr (record {
        failure = f;
        balance = rw (s, l) same.balance;
        mtu = λ g p. mtu-restore_mtu k saved' g p ∙ same.original_mtu;
        request = r ∙ q;
        relay = elim relay [ inl t ↦ inl t | inr e ↦ inr (l ∙ e) ];
      })

  give_up-Failed :
      (more : ℕ) (n k : Nifm) (d : Discovery) (rc : Outcome)
      → SameButRelay n k
      → IsSaved changed n
      → is_success rc ≡ false
      → (a.thread ≡ false) ⊎ (k.relay_session ≡ n.relay_session)
      → Ended a more n (give_up a changed k d rc)
  give_up-Failed more n k d rc same saved f relay =
      restored-Failed more n (close_request k) d rc
        (record { balance = same.balance; mtu = same.mtu; original_mtu = same.original_mtu }) saved
        f refl relay

  start_worker-Ended :
      (use_relay : Bool) (n k : Nifm) (d : Discovery)
      → IsSaved changed n
      → held n ≤ n.sessions
      → SameButRelay n k
      → k.sessions ≡ n.sessions
      → k.relay_session ≡ n.relay_session
      → Ended a 0 n (start_worker a use_relay changed k d)
  unfolding start_worker
  start_worker-Ended use_relay n k d saved h same e l =
      let opened =
        start_relay-SameButRelay a use_relay k d.relay (omega (arith, h, e, ap count l)) in
      let both : SameButRelay n (start_relay a use_relay k d.relay).0 = record {
        balance = omega (arith, same.balance, opened.balance);
        mtu = opened.mtu ∙ same.mtu;
        original_mtu = opened.original_mtu ∙ same.original_mtu;
      } in
      if-elim (Ended a 0 n) a.thread
        (λ t. inl (record {
          success = refl;
          balance = omega (arith, both.balance);
          original_mtu = both.original_mtu;
          initialized = refl;
        }))
        (λ t. give_up-Failed 0 n _ _ (system_failure 0xF601) both saved refl (inl t))

  init_session-Ended :
      (use_relay : Bool) (n : Nifm) (d : Discovery)
      → IsSaved changed n
      → held n ≤ n.sessions
      → n.request_open ≡ false
      → Ended a 0 n (init_session a use_relay changed n d)
  unfolding init_session
  init_session-Ended use_relay n d saved h q =
      let asked : Nifm = record n { request_open = true } in
      let same : SameButRelay n asked = record {
        balance = refl;
        mtu = refl;
        original_mtu = refl;
      } in
      if-elim (Ended a 0 n) (not a.create_request)
        (λ e.
          restored-Failed 0 n n d (system_failure 0)
            (record { balance = refl; mtu = refl; original_mtu = refl }) saved refl q (inr refl))
        (λ e.
          if-elim (Ended a 0 n) (not use_relay && not a.local_mode)
            (λ l. give_up-Failed 0 n asked _ (system_failure 1) same saved refl (inr refl))
            (λ l.
              if-elim (Ended a 0 n) (not a.submit)
                (λ s. give_up-Failed 0 n asked _ (system_failure 2) same saved refl (inr refl))
                (λ s.
                  if-elim (Ended a 0 n) (not (is_success a.udp_rc))
                    (λ u. give_up-Failed 0 n asked _ a.udp_rc same saved (ground arith) (inr refl))
                    (λ u. start_worker-Ended use_relay n asked _ saved h same refl refl))))

-- guarded gives back the session that acquire took.
guarded-Ended :
    (a : Answers) (n m : Nifm) (out : InitResult)
    → held n ≤ n.sessions
    → m.sessions ≡ n.sessions + 1
    → m.relay_session ≡ n.relay_session
    → m.original_mtu ≡ n.mtu
    → Ended a 0 m out
    → Ended a 1 (record n { original_mtu = n.mtu }) (guarded out)
unfolding release
guarded-Ended a n m (k, d, rc) h s l o (inl v) =
    let same = ap count l in
    rw v.success (
      inl (record {
        success = v.success;
        balance = omega (arith, v.balance, s, same);
        original_mtu = v.original_mtu ∙ o;
        initialized = v.initialized;
      }))
guarded-Ended a n m (k, d, rc) h s l o (inr v) =
    let same = ap count l in
    rw v.failure (
      inr (record {
        failure = v.failure;
        balance = ground (arith, v.balance, s, same, h);
        mtu = λ g p. ground (arith, v.mtu g p);
        request = ground (arith, v.request);
        relay = elim v.relay [ inl t ↦ inl t | inr e ↦ inr (ground (arith, e, l)) ];
      }))

acquire_lem :
    (n : Nifm) (ok : Bool)
    → ((acquire n ok).1 ≡ true → (acquire n ok).0.sessions ≡ n.sessions + 1)
      × ((acquire n ok).0.mtu ≡ n.mtu)
      × ((acquire n ok).0.request_open ≡ n.request_open)
      × ((acquire n ok).0.relay_session ≡ n.relay_session)
unfolding acquire
acquire_lem n ok = (ground arith, ground arith, ground arith, ground arith)

-- The profile was left alone only if its MTU was the wanted one.
same_mtu :
    (w m : ℕ)
    → IsSaved (not (w == m)) (record {
      sessions = 0;
      mtu = w;
      original_mtu = m;
      request_open = false;
      relay_session = false;
    })
same_mtu w m = elim (Bool-cases (w == m)) [
  | inl e ↦ inr (ground arith)
  | inr e ↦ inl (ground arith)
]

-- A failure before the request, with the session given back
released-Failed :
    (a : Answers) (n m : Nifm) (d : Discovery) (rc : Outcome)
    → m.sessions ≡ n.sessions + 1
    → m.relay_session ≡ n.relay_session
    → m.mtu ≡ n.mtu
    → m.request_open ≡ false
    → is_success rc ≡ false
    → Ended a 1 (record n { original_mtu = n.mtu }) (release m, d, rc)
unfolding release
released-Failed a n m d rc s l e q f =
    let same = ap count l in
    inr (record {
      failure = f;
      balance = ground (arith, s, same);
      mtu = λ g p. ground (arith, e);
      request = ground (arith, q);
      relay = inr (ground (arith, l));
    })

pub initialize-Ended :
    (a : Answers) (use_relay : Bool) (n : Nifm) (d : Discovery)
    → d.initialized ≡ false
    → n.request_open ≡ false
    → held n ≤ n.sessions
    → Ended a 1 (record n { original_mtu = n.mtu }) (initialize a use_relay n d)
unfolding initialize
initialize-Ended a use_relay n d i o h =
    let goal = Ended a 1 (record n { original_mtu = n.mtu }) in
    let (s, m, q, l) = acquire_lem n a.nifm_init in
    let taken = (acquire n a.nifm_init).0 in
    let wanted = desired_mtu taken.mtu in
    let saved : Nifm = record taken { original_mtu = taken.mtu } in
    if-elim goal d.initialized (λ e. absurd (ground (arith, i, e)))
      (λ e.
        if-elim goal (not (acquire n a.nifm_init).1)
          (λ k. inr (record {
            failure = refl;
            balance = refl;
            mtu = λ g p. refl;
            request = o;
            relay = inr refl;
          }))
          (λ k.
            let one_more = s (ground arith) in
            if-elim goal (not a.get_profile)
              (λ g. released-Failed a n taken d (system_failure 4) one_more l m (q ∙ o) refl)
              (λ g.
                if-elim goal (not (wanted == taken.mtu) && not a.set_profile)
                  (λ p. released-Failed a n saved d (system_failure 5) one_more l m (q ∙ o) refl)
                  (λ p.
                    guarded-Ended a n (record saved { mtu = wanted }) _ h one_more l m
                      (init_session-Ended a _ use_relay (record saved { mtu = wanted }) d
                        (same_mtu wanted taken.mtu) (omega (arith, h, one_more, ap count l))
                        (q ∙ o))))))
