-- ===== src/RelayLink/Dns.antt =====
-- RelayTransport::ResolveHostname of ldn_mitm/source/relay_client.cpp: the query for an A record, and
-- the reading of the answer.
pub mod Answer
pub mod Fuel
use ldn_mitm.Base.{
  ℕ, zero, suc, ◌+◌, ◌*◌, ◌/◌, List, [], ◌∷◌, ◌++◌, Bool, true, false, not, ◌&&◌, ◌||◌, Option,
  none, some, if◌then◌else◌, ◌==◌, ltb, leb, length, replicate, byte_at, be16_at, be32_at, take,
}

abbrev pub is_empty_text : List ℕ → Bool
is_empty_text [] = true
is_empty_text (c ∷ cs) = false

-- the pieces of a host name between its dots; a dot at its end adds none
unfoldable pub labels : List ℕ → List (List ℕ)
labels [] = []
labels (c ∷ cs) =
    let rest = labels cs in
    if c == 46 then [] ∷ rest else elim rest [ [] ↦ (c ∷ []) ∷ [] | l ∷ ls ↦ (c ∷ l) ∷ ls ]

abbrev pub prepend : List ℕ → Option (List ℕ) → Option (List ℕ)
prepend bytes none = none
prepend bytes (some rest) = some (bytes ++ rest)

-- the loop over the labels, with `p` bytes of the 300 written
unfoldable pub encode_labels : ℕ → List (List ℕ) → Option (List ℕ)
encode_labels p [] = some []
encode_labels p (l ∷ ls) =
    if length l == 0 || ltb 63 (length l) || leb 300 (p + length l + 6)
    then none
    else prepend (length l ∷ l) (encode_labels (p + 1 + length l) ls)

-- id, flags, one question
abbrev pub query_header : List ℕ
query_header = 0x13 ∷ 0x37 ∷ 1 ∷ 0 ∷ 0 ∷ 1 ∷ 0 ∷ 0 ∷ 0 ∷ 0 ∷ 0 ∷ 0 ∷ []

-- root label, type A, class IN
abbrev pub question_end : List ℕ
question_end = 0 ∷ 0 ∷ 1 ∷ 0 ∷ 1 ∷ []

abbrev pub query_of : Option (List ℕ) → Option (List ℕ)
query_of none = none
query_of (some encoded) = some (query_header ++ encoded ++ question_end)

-- the query, `none` where the name cannot be asked for
unfoldable pub dns_query : List ℕ → Option (List ℕ)
dns_query host = if is_empty_text host then none else query_of (encode_labels 12 (labels host))

abbrev pub is_pointer : ℕ → Bool
is_pointer b = b / 64 == 3

-- The walk over the question's name, up to its end or past the first byte of a pointer. Each round goes on
-- by a byte at least, so the answer's length is fuel enough; what stands outside of it is not read.
unfoldable pub skip_question : ℕ → List ℕ → ℕ → ℕ
skip_question zero r off = off
skip_question (suc fuel) r off =
    let rest = skip_question fuel r (off + (byte_at r off + 1)) in
    if ltb off (length r) && not (byte_at r off == 0)
    then (if is_pointer (byte_at r off) then off + 1 else rest)
    else off

-- the walk over an answer's name, which is no pointer
unfoldable pub skip_name : ℕ → List ℕ → ℕ → ℕ
skip_name zero r off = off
skip_name (suc fuel) r off =
    let rest = skip_name fuel r (off + (byte_at r off + 1)) in
    if ltb off (length r) && not (byte_at r off == 0) then rest else off

-- the end of the name at the head of an answer
abbrev pub after_name : List ℕ → ℕ → ℕ
after_name r off = if is_pointer (byte_at r off) then off + 2 else skip_name (length r) r off + 1

-- the loop over the answers: the first address, 0 if there is none
unfoldable pub first_address : ℕ → List ℕ → ℕ → ℕ
first_address zero r off = 0
first_address (suc count) r off =
    let o = after_name r off in
    let rdlen = be16_at r (o + 8) in
    let rest = first_address count r (o + 10 + rdlen) in
    if ltb (length r) (off + 12) || ltb (length r) (o + 10)
    then 0
    else if be16_at r o == 1 && rdlen == 4 && leb (o + 10 + 4) (length r)
    then be32_at r (o + 10)
    else rest

-- What ResolveHostname returns for the `n` bytes received, n at most 512.
unfoldable pub dns_answer : List ℕ → ℕ
dns_answer r =
    if ltb (length r) 12 || be16_at r 6 == 0
    then 0
    else first_address (be16_at r 6) r (skip_question (length r) r 12 + 5)

-- at most 512 bytes are received
abbrev pub received : Option (List ℕ) → ℕ
received none = 0
received (some r) = dns_answer (take 512 r)

abbrev pub ask : (List ℕ → Option (List ℕ)) → Option (List ℕ) → ℕ
ask reply none = 0
ask reply (some q) = received (reply q)

-- ResolveHostname: `reply` is what comes back for a query, none for a failed call.
unfoldable pub resolve_hostname : (List ℕ → Option (List ℕ)) → List ℕ → ℕ
resolve_hostname reply host = ask reply (dns_query host)
