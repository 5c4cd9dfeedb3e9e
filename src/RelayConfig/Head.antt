-- ===== src/RelayConfig/Head.antt =====
-- The lines of settings: which lines of a file they leave, and how long they are.
use ldn_mitm.Base.{
  ℕ, zero, suc, ◌+◌, ◌/◌, ◌%◌, ◌≡◌, ◌≤◌, refl, ap, ◌∙◌, List, [], ◌∷◌, ◌++◌, Bool, true, false,
  Option, none, some, if-elim, Bool-cases, inl, inr, ◌==◌, ltb, length, length-append, arith,
}
use ldn_mitm.RelayConfig.{Server, Config, selected_server}
use ldn_mitm.RelayConfig.Text.{is_blank, skip_while, strip_prefix}
use ldn_mitm.RelayConfig.Parse.{is_directive_line, directive_value, enabled_name, broadcast_name}
use ldn_mitm.RelayConfig.Persist.{
  digits_of, decimal, flag, assign, id_lines, selected_lines, setting_lines, unlines,
}
use ldn_mitm.RelayConfig.Lines.{kept, unlines-append}
use ldn_mitm.RelayConfig.Settings.{IsFirst, IsStorable}

pub kept-append : (xs ys : List (List ℕ)) → kept (xs ++ ys) ≡ kept xs ++ kept ys
unfolding kept
kept-append [] ys = refl
kept-append (x ∷ xs) ys = elim (Bool-cases (is_directive_line (skip_while is_blank x))) [
  | inl d ↦ rw d (kept-append xs ys)
  | inr d ↦ rw d (ap (◌∷◌ x) (kept-append xs ys))
]

pub kept_twice : (ts : List (List ℕ)) → kept (kept ts) ≡ kept ts
unfolding kept
kept_twice [] = refl
kept_twice (t ∷ ts) = elim (Bool-cases (is_directive_line (skip_while is_blank t))) [
  | inl d ↦ rw d (kept_twice ts)
  | inr d ↦ rw d (rw d (ap (◌∷◌ t) (kept_twice ts)))
]

kept-flags :
    (e b : Bool) → kept (assign enabled_name (flag e) ∷ assign broadcast_name (flag b) ∷ []) ≡ []
unfolding kept is_directive_line skip_while directive_value strip_prefix
kept-flags true true = refl
kept-flags true false = refl
kept-flags false true = refl
kept-flags false false = refl

kept-id_lines : (id : ℕ) → kept (id_lines id) ≡ []
unfolding kept is_directive_line skip_while directive_value strip_prefix
kept-id_lines id = if-elim (λ ls. kept ls ≡ []) (id == 0) (λ z. refl) (λ n. refl)

kept-selected_lines : (o : Option Server) → kept (selected_lines o) ≡ []
unfolding kept is_directive_line skip_while directive_value strip_prefix
kept-selected_lines none = refl
kept-selected_lines (some s) = refl

pub kept-setting_lines : (c : Config) → kept (setting_lines c) ≡ []
unfolding setting_lines
kept-setting_lines c =
    let flags =
      assign enabled_name (flag c.enabled) ∷ assign broadcast_name (flag c.broadcast) ∷ [] in
    kept-append flags (id_lines c.client_id ++ selected_lines (selected_server c))
    ∙ ap (λ ls. ls ++ kept (id_lines c.client_id ++ selected_lines (selected_server c)))
        (kept-flags c.enabled c.broadcast)
    ∙ kept-append (id_lines c.client_id) (selected_lines (selected_server c))
    ∙ ap (λ ls. ls ++ kept (selected_lines (selected_server c))) (kept-id_lines c.client_id)
    ∙ kept-selected_lines (selected_server c)

-- The settings take at most 72 bytes.
length-digits_of :
    (count n : ℕ) (acc : List ℕ) → length (digits_of count n acc) ≤ count + length acc
unfolding digits_of
length-digits_of zero n acc = omega arith
length-digits_of (suc count) n acc =
    if-elim (λ (ds : List ℕ). length ds ≤ suc count + length acc) (ltb n 10) (λ s. omega arith)
      (λ s. omega (arith, length-digits_of count (n / 10) ((n % 10 + 48) ∷ acc)))

length-id_lines : (id : ℕ) → length (unlines (id_lines id)) ≤ 9
unfolding unlines
length-id_lines id =
    if-elim (λ ls. length (unlines ls) ≤ 9) (id == 0) (λ z. omega arith)
      (λ n. omega (arith, length-digits_of 5 id [], length-append (decimal id) (10 ∷ [])))

length-selected_lines :
    (c : Config) (o : Option Server) → IsFirst c o → length (unlines (selected_lines o)) ≤ 41
unfolding unlines
length-selected_lines c none h = omega arith
length-selected_lines c (some s) (n, f) = omega (arith, n.fits, length-append s.name (10 ∷ []))

length-flags :
    (e b : Bool) (rest : List (List ℕ))
    → length (unlines (assign enabled_name (flag e) ∷ assign broadcast_name (flag b) ∷ rest))
      ≡ 22 + length (unlines rest)
unfolding unlines
length-flags true true rest = omega arith
length-flags true false rest = omega arith
length-flags false true rest = omega arith
length-flags false false rest = omega arith

length-unlines :
    (xs ys : List (List ℕ))
    → length (unlines (xs ++ ys)) ≡ length (unlines xs) + length (unlines ys)
length-unlines xs ys = ap length (unlines-append xs ys) ∙ length-append (unlines xs) (unlines ys)

pub length-setting_lines : (c : Config) → IsStorable c → length (unlines (setting_lines c)) ≤ 72
unfolding setting_lines
length-setting_lines c v =
    let ids = id_lines c.client_id in
    let chosen = selected_lines (selected_server c) in
    omega (
      arith,
      length-flags c.enabled c.broadcast (ids ++ chosen),
      length-unlines ids chosen,
      length-id_lines c.client_id,
      length-selected_lines c (selected_server c) v.chosen,
    )
