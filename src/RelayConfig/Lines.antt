-- ===== src/RelayConfig/Lines.antt =====
-- Lines and the text they make: strtok_r takes apart what PersistConfig puts together.
use ldn_mitm.Base.{
  ℕ, ◌+◌, ◌≡◌, ◌≤◌, ◌<◌, refl, ap, ◌∙◌, List, [], ◌∷◌, ◌++◌, append_assoc, Bool, true, false, not,
  ◌&&◌, if◌then◌else◌, ◌==◌, leb, Bool-cases, inl, inr, if-elim, length, length-append, arith,
}
use ldn_mitm.RelayConfig.Text.{
  is_eol, is_blank, is_empty, until_nul, cons_head, split, non_empty, tokens, skip_while,
}
use ldn_mitm.RelayConfig.Parse.{is_directive_line}
use ldn_mitm.RelayConfig.Persist.{unlines, copy_lines}

abbrev pub all_of : (ℕ → Bool) → List ℕ → Bool
all_of p [] = true
all_of p (c ∷ cs) = p c && all_of p cs

abbrev pub is_line_byte : ℕ → Bool
is_line_byte c = not (c == 0) && not (is_eol c)

abbrev pub is_token : List ℕ → Bool
is_token t = not (is_empty t) && all_of is_line_byte t

abbrev all_lines : List (List ℕ) → Bool
all_lines [] = true
all_lines (l ∷ ls) = all_of is_line_byte l && all_lines ls

abbrev pub all_tokens : List (List ℕ) → Bool
all_tokens [] = true
all_tokens (t ∷ ts) = is_token t && all_tokens ts

-- the lines that PersistConfig copies
unfoldable pub kept : List (List ℕ) → List (List ℕ)
kept [] = []
kept (t ∷ ts) = if is_directive_line (skip_while is_blank t) then kept ts else t ∷ kept ts

cons_head-all_lines :
    (c : ℕ) (ls : List (List ℕ))
    → is_line_byte c ≡ true
    → all_lines ls ≡ true
    → all_lines (cons_head c ls) ≡ true
cons_head-all_lines c [] b h = ground arith
cons_head-all_lines c (l ∷ ls) b h = ground arith

split-all_lines : (text : List ℕ) → all_lines (split (until_nul text)) ≡ true
unfolding split until_nul
split-all_lines [] = refl
split-all_lines (c ∷ cs) =
    if-elim (λ t. all_lines (split t) ≡ true) (c == 0) (λ z. refl)
      (λ nz.
        if-elim (λ ls. all_lines ls ≡ true) (is_eol c) (λ e. split-all_lines cs)
          (λ n. cons_head-all_lines c (split (until_nul cs)) (ground arith) (split-all_lines cs)))

non_empty-all_tokens : (ls : List (List ℕ)) → all_lines ls ≡ true → all_tokens (non_empty ls) ≡ true
unfolding non_empty
non_empty-all_tokens [] h = refl
non_empty-all_tokens ([] ∷ ls) h = non_empty-all_tokens ls h
non_empty-all_tokens ((c ∷ cs) ∷ ls) h = ground (arith, non_empty-all_tokens ls)

pub tokens-all_tokens : (text : List ℕ) → all_tokens (tokens (until_nul text)) ≡ true
unfolding tokens
tokens-all_tokens text = non_empty-all_tokens (split (until_nul text)) (split-all_lines text)

pub kept-all_tokens : (ts : List (List ℕ)) → all_tokens ts ≡ true → all_tokens (kept ts) ≡ true
unfolding kept
kept-all_tokens [] h = refl
kept-all_tokens (t ∷ ts) h =
    if-elim (λ ls. all_tokens ls ≡ true) (is_directive_line (skip_while is_blank t))
      (λ d. kept-all_tokens ts (ground arith)) (λ n. ground (arith, kept-all_tokens ts))

until_nul-line :
    (l rest : List ℕ)
    → all_of is_line_byte l ≡ true
    → until_nul (l ++ 10 ∷ rest) ≡ l ++ 10 ∷ until_nul rest
unfolding until_nul
until_nul-line [] rest h = refl
until_nul-line (c ∷ cs) rest h =
    if-elim (λ t. t ≡ c ∷ (cs ++ 10 ∷ until_nul rest)) (c == 0) (λ z. absurd (ground arith))
      (λ n. ap (◌∷◌ c) (until_nul-line cs rest (ground arith)))

split-line :
    (l rest : List ℕ) → all_of is_line_byte l ≡ true → split (l ++ 10 ∷ rest) ≡ l ∷ split rest
unfolding split
split-line [] rest h = refl
split-line (c ∷ cs) rest h =
    if-elim (λ t. t ≡ (c ∷ cs) ∷ split rest) (is_eol c) (λ e. absurd (ground arith))
      (λ n. ap (cons_head c) (split-line cs rest (ground arith)))

-- Tokens, written with their ends, are read again.
pub tokens-unlines :
    (ts : List (List ℕ)) → all_tokens ts ≡ true → tokens (until_nul (unlines ts)) ≡ ts
unfolding tokens unlines non_empty until_nul split
tokens-unlines [] h = refl
tokens-unlines ([] ∷ ts) h = absurd (ground arith)
tokens-unlines ((c ∷ cs) ∷ ts) h =
    let line = c ∷ cs in
    ap (λ t. non_empty (split t)) (until_nul-line line (unlines ts) (ground arith))
    ∙ ap non_empty (split-line line (until_nul (unlines ts)) (ground arith))
    ∙ ap (◌∷◌ line) (tokens-unlines ts (ground arith))

pub unlines-append : (xs ys : List (List ℕ)) → unlines (xs ++ ys) ≡ unlines xs ++ unlines ys
unfolding unlines
unlines-append [] ys = refl
unlines-append (x ∷ xs) ys =
    rw (unlines-append xs ys, append_assoc x (10 ∷ unlines xs) (unlines ys))

-- The size of a text's lines: at most an end more than the text.
abbrev weight : List (List ℕ) → ℕ
weight [] = 1
weight (l ∷ ls) = length (unlines (l ∷ ls))

cons_head-weight : (c : ℕ) (ls : List (List ℕ)) → weight (cons_head c ls) ≡ weight ls + 1
unfolding unlines
cons_head-weight c [] = refl
cons_head-weight c (l ∷ ls) = omega arith

length-unlines-weight : (ls : List (List ℕ)) → length (unlines ls) ≤ weight ls
unfolding unlines
length-unlines-weight [] = omega arith
length-unlines-weight (l ∷ ls) = omega arith

split-weight : (text : List ℕ) → weight (split text) ≤ length text + 1
unfolding split unlines
split-weight [] = omega arith
split-weight (c ∷ cs) =
    if-elim (λ ls. weight ls ≤ length (c ∷ cs) + 1) (is_eol c)
      (λ e. omega (arith, split-weight cs, length-unlines-weight (split cs)))
      (λ n. omega (arith, split-weight cs, cons_head-weight c (split cs)))

non_empty-length : (ls : List (List ℕ)) → length (unlines (non_empty ls)) ≤ length (unlines ls)
unfolding non_empty unlines
non_empty-length [] = omega arith
non_empty-length ([] ∷ ls) = omega (arith, non_empty-length ls)
non_empty-length ((c ∷ cs) ∷ ls) = omega (
  arith,
  non_empty-length ls,
  length-append cs (10 ∷ unlines ls),
  length-append cs (10 ∷ unlines (non_empty ls)),
)

pub tokens-length : (text : List ℕ) → length (unlines (tokens text)) ≤ length text + 1
unfolding tokens
tokens-length text =
    omega
      (arith, non_empty-length (split text), length-unlines-weight (split text), split-weight text)

pub until_nul-length : (text : List ℕ) → length (until_nul text) ≤ length text
unfolding until_nul
until_nul-length [] = omega arith
until_nul-length (c ∷ cs) =
    if-elim (λ (t : List ℕ). length t ≤ length (c ∷ cs)) (c == 0) {x = []} {y = c ∷ until_nul cs}
      (λ z. omega arith) (λ n. omega (arith, until_nul-length cs))

-- With room for all of them, the lines that are no settings are copied.
pub copy_lines-kept :
    (pos : ℕ) (ts : List (List ℕ))
    → pos + length (unlines ts) < 1280
    → copy_lines pos ts ≡ unlines (kept ts)
unfolding copy_lines kept unlines
copy_lines-kept pos [] h = refl
copy_lines-kept pos (t ∷ ts) h =
    let size = length-append t (10 ∷ unlines ts) in
    elim (Bool-cases (is_directive_line (skip_while is_blank t))) [
      | inl d ↦ rw d (copy_lines-kept pos ts (omega (arith, size)))
      | inr d ↦
          let full : leb 1280 (pos + (length t + 1)) ≡ false = ground (arith, size) in
          rw (d, full, copy_lines-kept (pos + (length t + 1)) ts (omega (arith, size))) refl
    ]

pub kept-length : (ts : List (List ℕ)) → length (unlines (kept ts)) ≤ length (unlines ts)
unfolding kept unlines
kept-length [] = omega arith
kept-length (t ∷ ts) =
    if-elim (λ ls. length (unlines ls) ≤ length (unlines (t ∷ ts)))
      (is_directive_line (skip_while is_blank t))
      (λ d. omega (arith, kept-length ts, length-append t (10 ∷ unlines ts)))
      (λ n. omega (
        arith,
        kept-length ts,
        length-append t (10 ∷ unlines ts),
        length-append t (10 ∷ unlines (kept ts)),
      ))
