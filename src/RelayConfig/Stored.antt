-- ===== src/RelayConfig/Stored.antt =====
-- What LoadConfig makes of the lines that PersistConfig writes, and of those that it copies.
use ldn_mitm.Base.{
  ℕ, zero, suc, ◌+◌, ◌*◌, ◌/◌, ◌%◌, ◌≡◌, ◌≤◌, ◌<◌, refl, sym, ap, ◌∙◌, List, [], ◌∷◌, ◌++◌, true,
  false, Option, none, some, if◌then◌else◌, ltb, Bool-cases, Option-cases, inl, inr, if-elim,
  length, length-append, arith,
}
use ldn_mitm.RelayConfig.{Server, max_servers}
use ldn_mitm.RelayConfig.Text.{is_blank, is_digit, skip_while, digits_value, strtol}
use ldn_mitm.RelayConfig.Parse.{
  Loading, directive_value, is_some, is_directive_line, enabled_name, broadcast_name, selected_name,
  id_name, valid_id, with_server, is_ignored, load_line, load_lines, parse_server,
}
use ldn_mitm.RelayConfig.Persist.{digits_of}
use ldn_mitm.RelayConfig.Lines.{kept, all_of}

-- The servers that a line leaves, which depend on nothing else.
abbrev grown : List Server → Option Server → List Server
grown ss none = ss
grown ss (some s) = ss ++ s ∷ []

grown-length : (ss : List Server) (o : Option Server) → length (grown ss o) ≤ length ss + 1
grown-length ss none = omega arith
grown-length ss (some s) = omega (arith, length-append ss (s ∷ []))

abbrev pub servers_after : List Server → List ℕ → List Server
servers_after ss line = if is_ignored line then ss else grown ss (parse_server line)

some_value : (o : Option (List ℕ)) → is_some o ≡ false → o ≡ none
some_value none h = refl
some_value (some v) h = absurd (ground arith)

with_server-record :
    (l : Loading) (o : Option Server) → with_server l o ≡ record l { servers = grown l.servers o }
with_server-record l none = refl
with_server-record l (some s) = refl

-- A line that is no setting can only add a server.
pub load_line-other :
    (l : Loading) (line : List ℕ)
    → is_directive_line line ≡ false
    → load_line l line ≡ record l { servers = servers_after l.servers line }
unfolding load_line is_directive_line
load_line-other l line h =
    let e = some_value (directive_value line enabled_name) (ground arith) in
    let b = some_value (directive_value line broadcast_name) (ground arith) in
    let s = some_value (directive_value line selected_name) (ground arith) in
    let i = some_value (directive_value line id_name) (ground arith) in
    elim (Bool-cases (is_ignored line)) [
      | inl g ↦ rw g refl
      | inr g ↦ rw (g, e, b, s, i) (with_server-record l (parse_server line))
    ]

servers_after-length :
    (ss : List Server) (line : List ℕ) → length (servers_after ss line) ≤ length ss + 1
servers_after-length ss line =
    if-elim (λ (x : List Server). length x ≤ length ss + 1) (is_ignored line) (λ i. omega arith)
      (λ i. grown-length ss (parse_server line))

-- A setting keeps the servers.
pub load_line-setting :
    (l : Loading) (line : List ℕ)
    → is_directive_line line ≡ true
    → (load_line l line).servers ≡ l.servers
unfolding load_line is_directive_line
load_line-setting l line h = elim (Bool-cases (is_ignored line)) [
  | inl g ↦ rw g refl
  | inr g ↦ rw g (elim (Option-cases (directive_value line enabled_name)) [
    | inr (v, e) ↦ rw e refl
    | inl e ↦ rw e (elim (Option-cases (directive_value line broadcast_name)) [
      | inr (v, b) ↦ rw b refl
      | inl b ↦ rw b (elim (Option-cases (directive_value line id_name)) [
        | inr (v, i) ↦ rw i (
            if-elim (λ (x : Loading). x.servers ≡ l.servers) (valid_id (strtol v).0 (strtol v).1)
              (λ k. refl) (λ k. refl))
        | inl i ↦ rw i (elim (Option-cases (directive_value line selected_name)) [
          | inr (v, s) ↦ rw s refl
          | inl s ↦ absurd (ground (arith, e, b, i, s))
        ])
      ])
    ])
  ])
]

pub load_line-length :
    (l : Loading) (line : List ℕ) → length (load_line l line).servers ≤ length l.servers + 1
load_line-length l line = elim (Bool-cases (is_directive_line line)) [
  | inl d ↦ rw (load_line-setting l line d) (omega arith)
  | inr d ↦ rw (load_line-other l line d) (servers_after-length l.servers line)
]

load_lines-full :
    (l : Loading) (ts : List (List ℕ))
    → ltb (length l.servers) max_servers ≡ false
    → load_lines l ts ≡ l
unfolding load_lines
load_lines-full l [] h = refl
load_lines-full l (t ∷ ts) h = rw h refl

pub load_lines-next :
    (l : Loading) (t : List ℕ) (ts : List (List ℕ))
    → ltb (length l.servers) max_servers ≡ true
    → load_lines l (t ∷ ts) ≡ load_lines (load_line l (skip_while is_blank t)) ts
unfolding load_lines
load_lines-next l t ts h = rw h refl

-- The copied lines give the servers that all lines gave, whatever the settings are.
pub load_lines-kept :
    (l l2 : Loading) (ts : List (List ℕ))
    → l.servers ≡ l2.servers
    → load_lines l (kept ts) ≡ record l { servers = (load_lines l2 ts).servers }
unfolding kept load_lines
load_lines-kept l l2 [] e = ap (λ ss. record l { servers = ss }) e
load_lines-kept l l2 (t ∷ ts) e =
    let line = skip_while is_blank t in
    let stays = ap (λ ss. record l { servers = ss }) e in
    let room = ap (λ (ss : List Server). ltb (length ss) max_servers) e in
    elim (Bool-cases (ltb (length l2.servers) max_servers)) [
      | inr full ↦
          load_lines-full l (kept (t ∷ ts)) (room ∙ full)
          ∙ stays
          ∙ ap (λ (x : Loading). record l { servers = x.servers })
              (sym (load_lines-full l2 (t ∷ ts) full))
      | inl more ↦ elim (Bool-cases (is_directive_line line)) [
        | inl d ↦
            rw (d, more)
              (load_lines-kept l (load_line l2 line) ts (e ∙ sym (load_line-setting l2 line d)))
        | inr d ↦
            rw (d, more)
              (load_lines-next l t (kept ts) (room ∙ more)
                ∙ ap (λ x. load_lines x (kept ts)) (load_line-other l line d)
                ∙ load_lines-kept (record l { servers = servers_after l.servers line })
                    (load_line l2 line) ts
                    (ap (λ ss. servers_after ss line) e
                      ∙ ap (λ (x : Loading). x.servers) (sym (load_line-other l2 line d))))
      ]
    ]

-- Numbers: what %u writes, strtol reads.
abbrev power_of_ten : ℕ → ℕ
power_of_ten zero = 1
power_of_ten (suc k) = 10 * power_of_ten k

digit_at : (n : ℕ) → n < 10 → is_digit (n + 48) ≡ true
digit_at n h = ground arith

pub digits_value-digits_of :
    (count n : ℕ) (acc : List ℕ)
    → n < power_of_ten (suc count)
    → digits_value 0 (digits_of (suc count) n acc) ≡ digits_value n acc
unfolding digits_of digits_value
digits_value-digits_of zero n acc h =
    if-elim (λ ds. digits_value 0 ds ≡ digits_value n acc) (ltb n 10) (λ s. ground arith)
      (λ s. absurd (ground arith))
digits_value-digits_of (suc count) n acc h =
    if-elim (λ ds. digits_value 0 ds ≡ digits_value n acc) (ltb n 10) (λ s. ground arith)
      (λ s.
        digits_value-digits_of count (n / 10) ((n % 10 + 48) ∷ acc) (omega arith) ∙ ground arith)

-- All bytes of a number are digits.
pub all_digits :
    (count n : ℕ) (acc : List ℕ)
    → all_of is_digit acc ≡ true
    → all_of is_digit (digits_of count n acc) ≡ true
unfolding digits_of
all_digits zero n acc h = h
all_digits (suc count) n acc h =
    if-elim (λ ds. all_of is_digit ds ≡ true) (ltb n 10) (λ s. ground arith)
      (λ s. all_digits count (n / 10) ((n % 10 + 48) ∷ acc) (ground arith))
