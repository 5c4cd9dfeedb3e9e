-- ===== src/RelayConfig/Settings.antt =====
-- The lines of settings that PersistConfig writes: they are tokens, and LoadConfig reads each of them.
use ldn_mitm.Base.{
  ℕ, ◌≡◌, ◌≤◌, ◌<◌, ◌⊎◌, refl, ap, ◌∙◌, List, [], ◌∷◌, ◌++◌, append_assoc, Bool, true, false, not,
  ◌&&◌, Option, none, some, ◌==◌, Bool-cases, inl, inr, if-elim, length, take-all, arith,
}
use ldn_mitm.RelayConfig.{Server, Config, selected_server}
use ldn_mitm.RelayConfig.Text.{
  is_space, is_digit, skip_while, digits_value, signed, strtol, atoi, strip_prefix,
}
use ldn_mitm.RelayConfig.Parse.{
  Loading, is_separator, ends_name, directive_value, enabled_name, broadcast_name, selected_name,
  id_name, valid_id, load_line, load_lines, trim_end, index_of, no_settings,
}
use ldn_mitm.RelayConfig.Persist.{decimal, flag, assign, id_lines, selected_lines, setting_lines}
use ldn_mitm.RelayConfig.Lines.{all_of, is_line_byte, is_token, all_tokens}
use ldn_mitm.RelayConfig.Stored.{load_lines-next, digits_value-digits_of, all_digits}

-- A name that can be read back: a word of at most 31 bytes that does not start with '='.
abbrev pub is_name_byte : ℕ → Bool
is_name_byte c = not (is_space c) && not (c == 0)

pub record IsName (name : List ℕ) : Type 0 where
  pub word : all_of is_name_byte name ≡ true
  pub starts : ends_name name ≡ false
  pub fits : length name ≤ 31

-- The chosen server is the first of its name; without servers the choice is 0.
abbrev pub IsFirst : Config → Option Server → Type 0
IsFirst c none = c.selected ≡ 0
IsFirst c (some s) = IsName s.name × (index_of s.name c.servers ≡ some c.selected)

pub record IsStorable (c : Config) : Type 0 where
  pub id_ok : (c.client_id ≡ 0) ⊎ (valid_id false c.client_id ≡ true)
  pub chosen : IsFirst c (selected_server c)

skip_while-none :
    (p q : ℕ → Bool) (cs : List ℕ)
    → ((c : ℕ) → p c ≡ true → q c ≡ false)
    → all_of p cs ≡ true
    → skip_while q cs ≡ cs
unfolding skip_while
skip_while-none p q [] f h = refl
skip_while-none p q (c ∷ cs) f h = rw (f c (ground arith)) refl

all_of-weaken :
    (p q : ℕ → Bool) (cs : List ℕ)
    → ((c : ℕ) → p c ≡ true → q c ≡ true)
    → all_of p cs ≡ true
    → all_of q cs ≡ true
all_of-weaken p q [] f h = refl
all_of-weaken p q (c ∷ cs) f h = rw (f c (ground arith)) (all_of-weaken p q cs f (ground arith))

signed-digits : (cs : List ℕ) → all_of is_digit cs ≡ true → signed cs ≡ (false, cs)
signed-digits [] h = refl
signed-digits (c ∷ cs) h = ground arith

strtol-decimal : (n : ℕ) → n < 65536 → strtol (decimal n) ≡ (false, n)
unfolding strtol digits_value
strtol-decimal n h =
    let ds : all_of is_digit (decimal n) ≡ true = all_digits 5 n [] refl in
    let no_space = skip_while-none is_digit is_space (decimal n) (λ c d. ground arith) ds in
    let value : digits_value 0 (decimal n) ≡ n = digits_value-digits_of 4 n [] (omega arith) in
    rw (no_space, signed-digits (decimal n) ds, value) (ground arith)

pub trim_end-name : (cs : List ℕ) → all_of is_name_byte cs ≡ true → trim_end cs ≡ cs
unfolding trim_end
trim_end-name [] h = refl
trim_end-name (c ∷ cs) h = rw (trim_end-name cs (ground arith)) (ground arith)

-- Each line of settings, read.
load_line-enabled :
    (l : Loading) (b : Bool) → load_line l (assign enabled_name (flag b)) ≡ record l { enabled = b }
unfolding load_line directive_value strip_prefix skip_while atoi strtol digits_value
load_line-enabled l true = refl
load_line-enabled l false = refl

load_line-broadcast :
    (l : Loading) (b : Bool)
    → load_line l (assign broadcast_name (flag b)) ≡ record l { broadcast = b }
unfolding load_line directive_value strip_prefix skip_while atoi strtol digits_value
load_line-broadcast l true = refl
load_line-broadcast l false = refl

load_line-id :
    (l : Loading) (n : ℕ)
    → valid_id false n ≡ true
    → load_line l (assign id_name (decimal n)) ≡ record l { client_id = n }
unfolding load_line directive_value strip_prefix skip_while
load_line-id l n h =
    let bound : n < 65536 = unfold valid_id in ground arith in
    let plain =
      skip_while-none is_digit is_separator (decimal n) (λ c d. ground arith)
        (all_digits 5 n [] refl) in
    rw (plain, strtol-decimal n bound, h) refl

name_start : (name : List ℕ) → ends_name name ≡ false → skip_while is_separator name ≡ name
unfolding skip_while
name_start [] h = refl
name_start (c ∷ cs) h = rw h refl

load_line-selected :
    (l : Loading) (name : List ℕ)
    → IsName name
    → load_line l (assign selected_name name) ≡ record l { pending = name }
unfolding load_line directive_value strip_prefix skip_while
load_line-selected l name n = rw (name_start name n.starts, take-all 31 name n.fits) refl

-- The settings' lines are tokens.
flag_token :
    (b : Bool)
    → all_tokens (assign enabled_name (flag b) ∷ assign broadcast_name (flag b) ∷ []) ≡ true
flag_token true = refl
flag_token false = refl

name_line : (name : List ℕ) → IsName name → is_token (assign selected_name name) ≡ true
name_line name n = all_of-weaken is_name_byte is_line_byte name (λ c b. ground arith) n.word

id_line : (n : ℕ) → is_token (assign id_name (decimal n)) ≡ true
id_line n =
    all_of-weaken is_digit is_line_byte (decimal n) (λ c b. ground arith) (all_digits 5 n [] refl)

id_lines-tokens : (n : ℕ) → all_tokens (id_lines n) ≡ true
id_lines-tokens n =
    if-elim (λ ls. all_tokens ls ≡ true) (n == 0) (λ z. refl) (λ k. rw (id_line n) refl)

selected_lines-tokens :
    (c : Config) (o : Option Server) → IsFirst c o → all_tokens (selected_lines o) ≡ true
selected_lines-tokens c none h = refl
selected_lines-tokens c (some s) (n, e) = rw (name_line s.name n) refl

pub all_tokens-append :
    (xs ys : List (List ℕ))
    → all_tokens xs ≡ true
    → all_tokens ys ≡ true
    → all_tokens (xs ++ ys) ≡ true
all_tokens-append [] ys a b = b
all_tokens-append (x ∷ xs) ys a b = rw (all_tokens-append xs ys (ground arith) b) (ground arith)

pub setting_lines-tokens : (c : Config) → IsStorable c → all_tokens (setting_lines c) ≡ true
unfolding setting_lines
setting_lines-tokens c v =
    let rest =
      all_tokens-append (id_lines c.client_id) (selected_lines (selected_server c))
        (id_lines-tokens c.client_id) (selected_lines-tokens c (selected_server c) v.chosen) in
    let e = flag_token c.enabled in let b = flag_token c.broadcast in rw rest (ground arith)

-- All settings are read, one after the other.
abbrev pub settings_of : Config → Loading
settings_of c = record {
  servers = [];
  enabled = c.enabled;
  client_id = c.client_id;
  broadcast = c.broadcast;
  pending = [];
}

abbrev pub with_pending : Loading → Option Server → Loading
with_pending l none = l
with_pending l (some s) = record l { pending = s.name }

load_lines-selected :
    (c : Config) (l : Loading) (o : Option Server) (rest : List (List ℕ))
    → IsFirst c o
    → l.servers ≡ []
    → load_lines l (selected_lines o ++ rest) ≡ load_lines (with_pending l o) rest
unfolding skip_while
load_lines-selected c l none rest h e = refl
load_lines-selected c l (some s) rest (n, f) e =
    load_lines-next l (assign selected_name s.name) rest (rw e refl)
    ∙ ap (λ x. load_lines x rest) (load_line-selected l s.name n)

load_lines-id :
    (l : Loading) (n : ℕ) (rest : List (List ℕ))
    → (n ≡ 0) ⊎ (valid_id false n ≡ true)
    → l.client_id ≡ 0
    → l.servers ≡ []
    → load_lines l (id_lines n ++ rest) ≡ load_lines (record l { client_id = n }) rest
unfolding skip_while
load_lines-id l n rest h z e = elim (Bool-cases (n == 0)) [
  | inl o ↦ rw o (ap (λ i. load_lines (record l { client_id = i }) rest) (ground arith))
  | inr o ↦ elim h [
    | inl same ↦ absurd (ground arith)
    | inr valid ↦ rw o (
        load_lines-next l (assign id_name (decimal n)) rest (rw e refl)
        ∙ ap (λ x. load_lines x rest) (load_line-id l n valid))
  ]
]

pub load_lines-setting_lines :
    (c : Config) (b : Bool) (rest : List (List ℕ))
    → IsStorable c
    → load_lines (no_settings b) (setting_lines c ++ rest)
      ≡ load_lines (with_pending (settings_of c) (selected_server c)) rest
unfolding setting_lines skip_while
load_lines-setting_lines c b rest v =
    let l0 = no_settings b in
    let l1 : Loading = record l0 { enabled = c.enabled } in
    let l2 : Loading = record l1 { broadcast = c.broadcast } in
    let ids = id_lines c.client_id in
    let chosen = selected_lines (selected_server c) in
    let more = assign broadcast_name (flag c.broadcast) ∷ ((ids ++ chosen) ++ rest) in
    load_lines-next l0 (assign enabled_name (flag c.enabled)) more refl
    ∙ ap (λ x. load_lines x more) (load_line-enabled l0 c.enabled)
    ∙ load_lines-next l1 (assign broadcast_name (flag c.broadcast)) ((ids ++ chosen) ++ rest) refl
    ∙ ap (λ x. load_lines x ((ids ++ chosen) ++ rest)) (load_line-broadcast l1 c.broadcast)
    ∙ ap (load_lines l2) (append_assoc ids chosen rest)
    ∙ load_lines-id l2 c.client_id (chosen ++ rest) v.id_ok refl refl
    ∙ load_lines-selected c (settings_of c) (selected_server c) rest v.chosen refl
