-- ===== src/RelayConfig/Text.antt =====
-- What LoadConfig uses of the C library, on text without its final NUL: strtok_r, strtol, atoi, sscanf
-- with %s and %u, strncmp on a prefix, strchr.
use ldn_mitm.Base.{
  ℕ, zero, suc, ◌+◌, ◌-◌, ◌*◌, ◌^◌, List, [], ◌∷◌, Bool, true, false, ◌||◌, ◌&&◌, Option, none,
  some, if◌then◌else◌, ◌==◌, leb, min, u32,
}

abbrev pub is_eol : ℕ → Bool
is_eol c = c == 10 || c == 13

-- the blanks that the parser skips, and those of isspace
abbrev pub is_blank : ℕ → Bool
is_blank c = c == 32 || c == 9

abbrev pub is_space : ℕ → Bool
is_space c = c == 32 || (leb 9 c && leb c 13)

abbrev pub is_digit : ℕ → Bool
is_digit c = leb 48 c && leb c 57

abbrev pub is_empty : List ℕ → Bool
is_empty [] = true
is_empty (c ∷ cs) = false

-- the text before the first NUL
unfoldable pub until_nul : List ℕ → List ℕ
until_nul [] = []
until_nul (c ∷ cs) = let rest = until_nul cs in if c == 0 then [] else c ∷ rest

abbrev pub cons_head : ℕ → List (List ℕ) → List (List ℕ)
cons_head c [] = (c ∷ []) ∷ []
cons_head c (l ∷ ls) = (c ∷ l) ∷ ls

-- the pieces between the ends of lines
unfoldable pub split : List ℕ → List (List ℕ)
split [] = []
split (c ∷ cs) = if is_eol c then [] ∷ split cs else cons_head c (split cs)

unfoldable pub non_empty : List (List ℕ) → List (List ℕ)
non_empty [] = []
non_empty (l ∷ ls) = if is_empty l then non_empty ls else l ∷ non_empty ls

-- strtok_r with "\r\n", until it returns null
unfoldable pub tokens : List ℕ → List (List ℕ)
tokens text = non_empty (split text)

unfoldable pub skip_while : (ℕ → Bool) → List ℕ → List ℕ
skip_while p [] = []
skip_while p (c ∷ cs) = let rest = skip_while p cs in if p c then rest else c ∷ cs

-- the number that the leading digits write, after `n`
unfoldable pub digits_value : ℕ → List ℕ → ℕ
digits_value n [] = n
digits_value n (c ∷ cs) =
    let rest = digits_value (n * 10 + (c - 48)) cs in if is_digit c then rest else n

-- A sign and what follows it.
abbrev pub signed : List ℕ → Bool × List ℕ
signed [] = (false, [])
signed (c ∷ cs) = if c == 45 then (true, cs) else if c == 43 then (false, cs) else (false, c ∷ cs)

-- strtol in base 10: whether it is negative, and its absolute value, which saturates.
unfoldable pub strtol : List ℕ → Bool × ℕ
strtol cs =
    let (negative, ds) = signed (skip_while is_space cs) in
    let n = digits_value 0 ds in (negative, if negative then min n (2 ^ 63) else min n (2 ^ 63 - 1))

-- the two's complement of a long in 32 bits
abbrev pub as_u32 : Bool → ℕ → ℕ
as_u32 false n = u32 n
as_u32 true n = u32 (2 ^ 32 - u32 n)

-- atoi, read as 32 unsigned bits
unfoldable pub atoi : List ℕ → ℕ
atoi cs = let (negative, n) = strtol cs in as_u32 negative n

-- the characters of %s: at most `max`, up to a space
unfoldable pub word_of : ℕ → List ℕ → List ℕ × List ℕ
word_of zero cs = ([], cs)
word_of (suc n) [] = ([], [])
word_of (suc n) (c ∷ cs) =
    let (w, rest) = word_of n cs in if is_space c then ([], c ∷ cs) else (c ∷ w, rest)

-- %s of sscanf: `none` is a failed conversion.
unfoldable pub scan_word : ℕ → List ℕ → Option (List ℕ × List ℕ)
scan_word max cs =
    let (w, rest) = word_of max (skip_while is_space cs) in
    if is_empty w then none else some (w, rest)

abbrev pub starts_with_digit : List ℕ → Bool
starts_with_digit [] = false
starts_with_digit (c ∷ cs) = is_digit c

-- %u of sscanf on text that does not start with a space
unfoldable pub scan_unsigned : List ℕ → Option (ℕ × List ℕ)
scan_unsigned cs =
    let (negative, ds) = signed cs in
    if starts_with_digit ds
    then some (as_u32 negative (min (digits_value 0 ds) (2 ^ 64 - 1)), skip_while is_digit ds)
    else none

-- a literal '.' and then %u
unfoldable pub scan_dot_unsigned : List ℕ → Option (ℕ × List ℕ)
scan_dot_unsigned [] = none
scan_dot_unsigned (c ∷ cs) = if c == 46 then scan_unsigned cs else none

-- strncmp with a name: what follows it
unfoldable pub strip_prefix : List ℕ → List ℕ → Option (List ℕ)
strip_prefix [] cs = some cs
strip_prefix (p ∷ ps) [] = none
strip_prefix (p ∷ ps) (c ∷ cs) = let rest = strip_prefix ps cs in if p == c then rest else none

-- strchr with ':': what stands before it, and after it
unfoldable pub split_colon : List ℕ → List ℕ × Option (List ℕ)
split_colon [] = ([], none)
split_colon (c ∷ cs) =
    let (host, port) = split_colon cs in if c == 58 then ([], some cs) else (c ∷ host, port)

-- strcmp: equal texts
unfoldable pub same_text : List ℕ → List ℕ → Bool
same_text [] [] = true
same_text [] (d ∷ ds) = false
same_text (c ∷ cs) [] = false
same_text (c ∷ cs) (d ∷ ds) = c == d && same_text cs ds
