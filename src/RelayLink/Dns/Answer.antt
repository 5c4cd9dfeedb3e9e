-- ===== src/RelayLink/Dns/Answer.antt =====
-- The answer of a name server that repeats the question and then gives one address.
use Prim.{tt}
use ldn_mitm.Base.{
  ℕ, zero, suc, ◌+◌, ◌*◌, ◌/◌, ◌%◌, ◌≡◌, ◌≤◌, ◌<◌, refl, sym, ap, ◌∙◌, List, [], ◌∷◌, ◌++◌,
  append_assoc, true, false, not, ◌&&◌, ◌||◌, Option, none, some, if-elim, ◌==◌, ltb, leb, length,
  length-append, get_or, get_or-append, byte_at, be16_at, take-all, drop, arith,
}
use ldn_mitm.RelayLink.Dns.{
  labels, encode_labels, prepend, query_of, dns_query, resolve_hostname, query_header, question_end,
  is_pointer, skip_question, first_address, dns_answer,
}

get_or-shift :
    (xs ys : List ℕ) (j i : ℕ) → j ≡ length xs + i → get_or (xs ++ ys) j 0 ≡ get_or ys i 0
get_or-shift [] ys j i e = ap (λ k. get_or ys k 0) (omega (arith, e))
get_or-shift (x ∷ xs) ys zero i e = absurd (omega arith)
get_or-shift (x ∷ xs) ys (suc j) i e = get_or-shift xs ys j i (omega arith)

get_or-head : (xs ys : List ℕ) (i : ℕ) → i < length xs → get_or (xs ++ ys) i 0 ≡ get_or xs i 0
get_or-head xs ys i h = get_or-append xs ys i 0 h

-- A name in its encoding: labels of 1 to 63 bytes
abbrev pub IsEncoded : List (List ℕ) → Type 0
IsEncoded [] = Unit {0}
IsEncoded (l ∷ ls) = (0 < length l) × (length l ≤ 63) × IsEncoded ls

abbrev pub encoded : List (List ℕ) → List ℕ
encoded [] = []
encoded (l ∷ ls) = (length l ∷ l) ++ encoded ls

-- The walk over the question's name ends at its zero.
skip_question-encoded :
    (fuel off : ℕ) (r pre : List ℕ) (ls : List (List ℕ)) (post : List ℕ)
    → r ≡ pre ++ (encoded ls ++ 0 ∷ post)
    → off ≡ length pre
    → length (encoded ls) < fuel
    → IsEncoded ls
    → skip_question fuel r off ≡ off + length (encoded ls)
unfolding skip_question
skip_question-encoded zero off r pre ls post e o f v = absurd (omega arith)
skip_question-encoded (suc fuel) off r pre [] post e o f v =
    let here : byte_at r off ≡ 0 =
      ap (λ x. byte_at x off) e ∙ get_or-shift pre (0 ∷ post) off 0 (omega arith) in
    if-elim (λ (x : ℕ). x ≡ off + 0) (ltb off (length r) && not (byte_at r off == 0))
      (λ k. absurd (ground (arith, here))) (λ k. omega arith)
skip_question-encoded (suc fuel) off r pre (l ∷ ls) post e o f (some_byte, short, v) =
    let tail = encoded ls ++ 0 ∷ post in
    let byte : byte_at r off ≡ length l =
      ap (λ x. byte_at x off) e ∙ get_or-shift pre _ off 0 (omega arith) in
    let size : length r ≡ length pre + suc (length ((l ++ encoded ls) ++ 0 ∷ post)) =
      ap length e ∙ length-append pre _ in
    let moved : r ≡ (pre ++ (length l ∷ l)) ++ tail =
      e
      ∙ ap (◌++◌ pre) (append_assoc (length l ∷ l) (encoded ls) (0 ∷ post))
      ∙ sym (append_assoc pre (length l ∷ l) tail) in
    let next =
      skip_question-encoded fuel (off + (byte_at r off + 1)) r (pre ++ (length l ∷ l)) ls post moved
        (omega (arith, byte, o, length-append pre (length l ∷ l)))
        (omega (arith, f, length-append l (encoded ls))) v in
    if-elim (λ (x : ℕ). x ≡ off + length (encoded (l ∷ ls)))
      (ltb off (length r) && not (byte_at r off == 0))
      (λ k.
        if-elim (λ (x : ℕ). x ≡ off + length (encoded (l ∷ ls))) (is_pointer (byte_at r off))
          (λ p. absurd (ground (arith, byte, short)))
          (λ p. next ∙ omega (arith, byte, length-append l (encoded ls))))
      (λ k. absurd (ground (arith, byte, some_byte, size, o)))

-- An answer with a pointer for its name, of type A and class IN, with four bytes of address; the second
-- list is whatever follows.
abbrev pub address_answer : ℕ → ℕ → ℕ → ℕ → List ℕ → List ℕ
address_answer ttl_high ttl_low ip_high ip_low more =
    0xC0
    ∷ 0x0C
    ∷ 0
    ∷ 1
    ∷ 0
    ∷ 1
    ∷ ttl_high / 256
    ∷ ttl_high % 256
    ∷ ttl_low / 256
    ∷ ttl_low % 256
    ∷ 0
    ∷ 4
    ∷ ip_high / 256
    ∷ ip_high % 256
    ∷ ip_low / 256
    ∷ ip_low % 256
    ∷ more

first_address-here :
    (count off : ℕ) (r pre : List ℕ) (ttl_high ttl_low ip_high ip_low : ℕ) (more : List ℕ)
    → r ≡ pre ++ address_answer ttl_high ttl_low ip_high ip_low more
    → off ≡ length pre
    → first_address (suc count) r off ≡ ip_high * 65536 + ip_low
unfolding first_address
first_address-here count off r pre ttl_high ttl_low ip_high ip_low more e o =
    let answer = address_answer ttl_high ttl_low ip_high ip_low more in
    let at : (j k : ℕ) → j ≡ length pre + k → byte_at r j ≡ get_or answer k 0 =
      λ j k s. ap (λ x. byte_at x j) e ∙ get_or-shift pre answer j k s in
    let size : length r ≡ length pre + (length more + 16) =
      ap length e ∙ length-append pre answer ∙ omega arith in
    let pointer : is_pointer (byte_at r off) ≡ true = ap is_pointer (at off 0 (omega arith)) in
    let type : (be16_at r (off + 2) == 1) ≡ true =
      ground (arith, at (off + 2) 2 (omega arith), at (off + 2 + 1) 3 (omega arith)) in
    let rdlen : (be16_at r (off + 2 + 8) == 4) ≡ true =
      ground (arith, at (off + 2 + 8) 10 (omega arith), at (off + 2 + 8 + 1) 11 (omega arith)) in
    let room : (ltb (length r) (off + 12) || ltb (length r) (off + 2 + 10)) ≡ false =
      ground (arith, size, o) in
    let fits : leb (off + 2 + 10 + 4) (length r) ≡ true = ground (arith, size, o) in
    rw (pointer, room, type, rdlen, fits)
      (omega (
        arith,
        at (off + 2 + 10) 12 (omega arith),
        at (off + 2 + 10 + 1) 13 (omega arith),
        at (off + 2 + 10 + 2) 14 (omega arith),
        at (off + 2 + 10 + 2 + 1) 15 (omega arith),
      ))

abbrev IsCoded : ℕ → List (List ℕ) → Option (List ℕ) → Type 0
IsCoded p ls none = Unit {0}
IsCoded p ls (some e) = (e ≡ encoded ls) × IsEncoded ls × (p ≤ 294 → p + length e ≤ 294)

prepend-IsCoded :
    (p : ℕ) (l : List ℕ) (ls : List (List ℕ)) (o : Option (List ℕ))
    → (length l == 0 || ltb 63 (length l) || leb 300 (p + length l + 6)) ≡ false
    → IsCoded (p + 1 + length l) ls o
    → IsCoded p (l ∷ ls) (prepend (length l ∷ l) o)
prepend-IsCoded p l ls none c h = tt
prepend-IsCoded p l ls (some e) c (same, v, m) =
    let short : length l ≤ 63 = ground arith in
    let bound : p + length l + 6 < 300 = ground arith in
    (
      ap (◌++◌ (length l ∷ l)) same,
      (ground arith, short, v),
      λ k. omega (arith, m (omega (arith, bound)), length-append l e),
    )

encode_labels-IsCoded : (p : ℕ) (ls : List (List ℕ)) → IsCoded p ls (encode_labels p ls)
unfolding encode_labels
encode_labels-IsCoded p [] = (refl, tt, λ k. omega arith)
encode_labels-IsCoded p (l ∷ ls) =
    if-elim (IsCoded p (l ∷ ls)) (length l == 0 || ltb 63 (length l) || leb 300 (p + length l + 6))
      (λ k. tt)
      (λ k.
        prepend-IsCoded p l ls (encode_labels (p + 1 + length l) ls) k
          (encode_labels-IsCoded (p + 1 + length l) ls))

dns_answer-first :
    (count : ℕ) (head : List ℕ) (ls : List (List ℕ)) (ttl_high ttl_low ip_high ip_low : ℕ)
    (more : List ℕ)
    → length head ≡ 12
    → be16_at head 6 ≡ suc count
    → IsEncoded ls
    → dns_answer (
        head
        ++ ((encoded ls ++ question_end) ++ address_answer ttl_high ttl_low ip_high ip_low more))
      ≡ ip_high * 65536 + ip_low
unfolding dns_answer
dns_answer-first count head ls ttl_high ttl_low ip_high ip_low more h c v =
    let answer = address_answer ttl_high ttl_low ip_high ip_low more in
    let r = head ++ ((encoded ls ++ question_end) ++ answer) in
    let post = 0 ∷ 1 ∷ 0 ∷ 1 ∷ answer in
    let shape : r ≡ head ++ (encoded ls ++ 0 ∷ post) =
      ap (◌++◌ head) (append_assoc (encoded ls) question_end answer) in
    let pre = head ++ (encoded ls ++ question_end) in
    let split_at : r ≡ pre ++ answer =
      sym (append_assoc head (encoded ls ++ question_end) answer) in
    let size : length r ≡ 12 + (length (encoded ls) + (5 + length answer)) =
      ap length shape
      ∙ length-append head (encoded ls ++ 0 ∷ post)
      ∙ omega (arith, h, length-append (encoded ls) (0 ∷ post)) in
    let end : skip_question (length r) r 12 ≡ 12 + length (encoded ls) =
      skip_question-encoded (length r) 12 r head ls post shape (sym h) (omega (arith, size)) v in
    let count_of : be16_at r 6 ≡ suc count = omega (
      arith,
      c,
      get_or-head head _ 6 (omega (arith, h)),
      get_or-head head _ 7 (omega (arith, h)),
    ) in
    let guard : (ltb (length r) 12 || be16_at r 6 == 0) ≡ false = ground (arith, size, count_of) in
    rw (guard, end, count_of)
      (first_address-here count (12 + length (encoded ls) + 5) r pre ttl_high ttl_low ip_high ip_low
        more split_at
        (omega (
          arith,
          h,
          length-append head (encoded ls ++ question_end),
          length-append (encoded ls) question_end,
        )))

some_eq : (a b : List ℕ) → some a ≡ some b → a ≡ b
some_eq a b e = ap (λ (o : Option (List ℕ)). elim o [ none ↦ a | some x ↦ x ]) e

query-encoded :
    (ls : List (List ℕ)) (o : Option (List ℕ)) (q : List ℕ)
    → IsCoded 12 ls o
    → query_of o ≡ some q
    → (drop 12 q ≡ encoded ls ++ question_end) × IsEncoded ls × (length (encoded ls) ≤ 282)
query-encoded ls none q h e = absurd (ground arith)
query-encoded ls (some enc) q (same, v, m) e = (
  ap (drop 12) (sym (some_eq (query_header ++ enc ++ question_end) q e))
      ∙ ap (λ x. x ++ question_end) same,
  v,
  omega (arith, m (omega arith), ap length same),
)

asked_for :
    (host q : List ℕ) → dns_query host ≡ some q → query_of (encode_labels 12 (labels host)) ≡ some q
unfolding dns_query
asked_for [] q e = absurd (ground arith)
asked_for (c ∷ cs) q e = e

-- The host name can be asked for, and the name server answers with any header of twelve bytes that counts
-- an answer, the question, and an answer that points back to the name and holds an address of type A, with
-- at most 150 bytes after it: ResolveHostname returns that address.
pub resolve_hostname-first :
    (host q head : List ℕ) (count ttl_high ttl_low ip_high ip_low : ℕ) (more : List ℕ)
    → dns_query host ≡ some q
    → length head ≡ 12
    → be16_at head 6 ≡ suc count
    → length more ≤ 150
    → resolve_hostname
        (λ asked.
          some (head ++ (drop 12 asked ++ address_answer ttl_high ttl_low ip_high ip_low more)))
        host
      ≡ ip_high * 65536 + ip_low
unfolding resolve_hostname
resolve_hostname-first host q head count ttl_high ttl_low ip_high ip_low more e h c m =
    let ls = labels host in
    let answer = address_answer ttl_high ttl_low ip_high ip_low more in
    let asked : query_of (encode_labels 12 ls) ≡ some q = asked_for host q e in
    let (question, v, bound) =
      query-encoded ls (encode_labels 12 ls) q (encode_labels-IsCoded 12 ls) asked in
    let whole : length (head ++ ((encoded ls ++ question_end) ++ answer)) ≤ 512 = omega (
      arith,
      h,
      m,
      bound,
      length-append head ((encoded ls ++ question_end) ++ answer),
      length-append (encoded ls ++ question_end) answer,
      length-append (encoded ls) question_end,
    ) in
    rw (e, question)
      (ap dns_answer (take-all 512 _ whole)
        ∙ dns_answer-first count head ls ttl_high ttl_low ip_high ip_low more h c v)
