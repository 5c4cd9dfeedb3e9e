-- ===== src/RelayConfig/Sound.antt =====
-- What the relay may count on after LoadConfig, and the client id that EnsureClientId gives.
use Prim.{tt}
use ldn_mitm.Base.{
  ℕ, suc, ◌+◌, ◌≡◌, ◌≤◌, ◌<◌, ◌⊎◌, refl, List, [], ◌∷◌, Bool, true, false, Option, none, some,
  if◌then◌else◌, ◌==◌, ltb, Bool-cases, inl, inr, if-elim, length, arith,
}
use ldn_mitm.RelayConfig.{Server, Config, max_servers, bad_client_id}
use ldn_mitm.RelayConfig.Text.{is_blank, is_empty, skip_while, tokens, same_text}
use ldn_mitm.RelayConfig.Parse.{
  Loading, read_config_file, load_line, load_lines, trim_end, index_of, or_zero, restore_selected,
  no_settings, load_config,
}
use ldn_mitm.RelayConfig.Persist.{draw_id, exchange, ensure_client_id, persist_config}
use ldn_mitm.RelayConfig.Limits.{AllServers, IsIdOk, IsLoading, load_line-IsLoading}
use ldn_mitm.RelayConfig.Stored.{load_line-length}

load_lines-IsLoading :
    (l : Loading) (ts : List (List ℕ)) → IsLoading l → IsLoading (load_lines l ts)
unfolding load_lines
load_lines-IsLoading l [] v = v
load_lines-IsLoading l (t ∷ ts) v =
    let line = skip_while is_blank t in
    if-elim IsLoading (ltb (length l.servers) max_servers)
      (λ more. load_lines-IsLoading (load_line l line) ts (load_line-IsLoading l line v))
      (λ full. v)

load_lines-length :
    (l : Loading) (ts : List (List ℕ)) → length l.servers ≤ 8 → length (load_lines l ts).servers ≤ 8
unfolding load_lines
load_lines-length l [] h = h
load_lines-length l (t ∷ ts) h =
    let line = skip_while is_blank t in
    if-elim (λ (x : Loading). length x.servers ≤ 8) (ltb (length l.servers) max_servers)
      (λ more. load_lines-length (load_line l line) ts (ground (arith, load_line-length l line)))
      (λ full. h)

abbrev Below : ℕ → Option ℕ → Type 0
Below n none = Unit {0}
Below n (some i) = i < n

Below-later :
    (n : ℕ) (o : Option ℕ)
    → Below n o
    → Below (suc n) (elim o [ none ↦ none | some i ↦ some (i + 1) ])
Below-later n none h = tt
Below-later n (some i) h = omega (arith, h)

index_of-Below : (name : List ℕ) (ss : List Server) → Below (length ss) (index_of name ss)
unfolding index_of
index_of-Below name [] = tt
index_of-Below name (s ∷ ss) =
    if-elim (Below (length (s ∷ ss))) (same_text s.name name) (λ e. omega arith)
      (λ e. Below-later (length ss) (index_of name ss) (index_of-Below name ss))

or_zero-Below : (n : ℕ) (o : Option ℕ) → Below n o → (or_zero o < n) ⊎ (or_zero o ≡ 0)
or_zero-Below n none h = inr refl
or_zero-Below n (some i) h = inl h

restore_selected-lt :
    (pending : List ℕ) (ss : List Server)
    → (restore_selected pending ss < length ss) ⊎ (restore_selected pending ss ≡ 0)
unfolding restore_selected
restore_selected-lt pending ss =
    let name = trim_end pending in
    if-elim (λ i. (i < length ss) ⊎ (i ≡ 0)) (is_empty name) (λ e. inr refl)
      (λ e. or_zero-Below (length ss) (index_of name ss) (index_of-Below name ss))

-- Whatever the file holds, LoadConfig makes at most eight servers, each with a name of at most 31 bytes,
-- a non-empty host of at most 63 and a port from 1 to 65535; the client id is none or not a bad one; the
-- selection is one of the servers or 0.
pub load_config-AllServers :
    (before : Bool) (file : List ℕ)
    → let c = load_config before file in
      AllServers c.servers
      × (length c.servers ≤ 8)
      × IsIdOk c.client_id
      × ((c.selected < length c.servers) ⊎ (c.selected ≡ 0))
unfolding load_config
load_config-AllServers before file =
    let l = no_settings before in
    let ts = tokens (read_config_file file) in
    let v = load_lines-IsLoading l ts (record { all = tt; id_ok = inl refl }) in
    (
      v.all,
      load_lines-length l ts (omega arith),
      v.id_ok,
      restore_selected-lt (load_lines l ts).pending (load_lines l ts).servers,
    )

abbrev pub any_good : List ℕ → Bool
any_good [] = false
any_good (n ∷ ns) = if bad_client_id n then any_good ns else true

draw_id-good :
    (draws : List ℕ)
    → any_good draws ≡ true
    → (n : ℕ) × (draw_id draws ≡ some n) × (bad_client_id n ≡ false)
unfolding draw_id
draw_id-good [] h = absurd (ground arith)
draw_id-good (n ∷ ns) h = elim (Bool-cases (bad_client_id n)) [
  | inl b ↦ let (m, e, g) = draw_id-good ns (rw b at h) in (m, rw b e, g)
  | inr b ↦ (n, rw b refl, b)
]

-- What a caller gets: a good id, which is the one kept, and which every later call returns unchanged.
abbrev pub IsAssigned : ℕ × Config × List ℕ → Type 0
IsAssigned (id, c, file) =
    (bad_client_id id ≡ false)
    × (c.client_id ≡ id)
    × ((draws : List ℕ) (others : ℕ) → ensure_client_id c file draws others ≡ some (id, c, file))

kept_id :
    (c : Config) (file : List ℕ)
    → bad_client_id c.client_id ≡ false
    → IsAssigned (c.client_id, c, file)
unfolding ensure_client_id
kept_id c file g = (
  g,
  refl,
  λ draws others.
      let nonzero : (c.client_id == 0) ≡ false = unfold bad_client_id in ground (arith, g) in
      rw nonzero refl,
)

exchange-IsAssigned :
    (c : Config) (file : List ℕ) (others fresh : ℕ)
    → bad_client_id fresh ≡ false
    → (others ≡ 0) ⊎ (bad_client_id others ≡ false)
    → (r : ℕ × Config × List ℕ) × (exchange c file others (some fresh) ≡ some r) × IsAssigned r
exchange-IsAssigned c file others fresh g o =
    let mine : Config = record c { client_id = fresh } in
    let theirs : Config = record c { client_id = others } in
    elim (Bool-cases (others == 0)) [
      | inl z ↦ (
        (fresh, mine, persist_config mine file),
        rw z refl,
        kept_id mine (persist_config mine file) g,
      )
      | inr z ↦ elim o [
        | inl same ↦ absurd (ground (arith, same))
        | inr good ↦ ((others, theirs, file), rw z refl, kept_id theirs file good)
      ]
    ]

-- If some random draw is good, and neither the stored id nor one that another thread puts there
-- meanwhile is bad, EnsureClientId returns a good id that is also the stored one, whichever thread was
-- first, and every later call returns it again and leaves settings and file as they are.
pub ensure_client_id-IsAssigned :
    (c : Config) (file draws : List ℕ) (others : ℕ)
    → any_good draws ≡ true
    → (c.client_id ≡ 0) ⊎ (bad_client_id c.client_id ≡ false)
    → (others ≡ 0) ⊎ (bad_client_id others ≡ false)
    → (r : ℕ × Config × List ℕ) × (ensure_client_id c file draws others ≡ some r) × IsAssigned r
unfolding ensure_client_id
ensure_client_id-IsAssigned c file draws others d i o = elim (Bool-cases (c.client_id == 0)) [
  | inl z ↦
      let (n, e, g) = draw_id-good draws d in
      let (r, same, ok) = exchange-IsAssigned c file others n g o in (r, rw (z, e) same, ok)
  | inr z ↦ elim i [
    | inl zero_id ↦ absurd (ground (arith, zero_id))
    | inr good ↦ ((c.client_id, c, file), rw z refl, kept_id c file good)
  ]
]
