-- ===== src/RelayConfig/Limits.antt =====
-- What LoadConfig can produce: the sizes of struct Server and the values that the relay counts on.
use Prim.{tt}
use ldn_mitm.Base.{
  ℕ, zero, suc, ◌≡◌, ◌≤◌, ◌<◌, ◌⊎◌, List, [], ◌∷◌, ◌++◌, false, ◌||◌, Option, none, some, ◌==◌, ltb,
  inr, if-elim, length, length-take, arith,
}
use ldn_mitm.RelayConfig.{Server, bad_client_id}
use ldn_mitm.RelayConfig.Text.{
  is_space, is_empty, skip_while, word_of, scan_word, strtol, split_colon,
}
use ldn_mitm.RelayConfig.Parse.{
  Loading, directive_value, enabled_name, broadcast_name, selected_name, id_name, own_name, named,
  two_words, server_of, with_enabled, with_broadcast, with_id, with_selected, name_and_addr,
  port_value, server_at, parse_server, with_server, valid_id, is_ignored, load_line,
}

pub record IsServer (s : Server) : Type 0 where
  pub name_fits : length s.name ≤ 31
  pub host_fits : length s.host ≤ 63
  pub has_host : is_empty s.host ≡ false
  pub port_ok : (0 < s.port) × (s.port ≤ 65535)

abbrev pub AllServers : List Server → Type 0
AllServers [] = Unit {0}
AllServers (s ∷ ss) = IsServer s × AllServers ss

abbrev MaybeServer : Option Server → Type 0
MaybeServer none = Unit {0}
MaybeServer (some s) = IsServer s

abbrev Fitting : Option (List ℕ × List ℕ) → Type 0
Fitting none = Unit {0}
Fitting (some (name, addr)) = (length name ≤ 31) × (length addr ≤ 63)

abbrev FirstFits : ℕ → Option (List ℕ × List ℕ) → Type 0
FirstFits max none = Unit {0}
FirstFits max (some (w, rest)) = length w ≤ max

word_of-length : (max : ℕ) (cs : List ℕ) → length (word_of max cs).0 ≤ max
unfolding word_of
word_of-length zero cs = omega arith
word_of-length (suc n) [] = omega arith
word_of-length (suc n) (c ∷ cs) =
    if-elim (λ (x : List ℕ × List ℕ). length x.0 ≤ suc n) (is_space c) (λ s. omega arith)
      (λ s. omega (arith, word_of-length n cs))

scan_word-FirstFits : (max : ℕ) (cs : List ℕ) → FirstFits max (scan_word max cs)
unfolding scan_word
scan_word-FirstFits max cs =
    if-elim (FirstFits max) (is_empty (word_of max (skip_while is_space cs)).0) (λ e. tt)
      (λ e. word_of-length max (skip_while is_space cs))

own_name-Fitting : (o : Option (List ℕ × List ℕ)) → FirstFits 63 o → Fitting (own_name o)
own_name-Fitting none h = tt
own_name-Fitting (some (addr, rest)) h = (omega (arith, length-take 31 addr), h)

named-Fitting :
    (name : List ℕ) (o alone : Option (List ℕ × List ℕ))
    → length name ≤ 31
    → FirstFits 63 o
    → Fitting alone
    → Fitting (named name o alone)
named-Fitting name none alone n h a = a
named-Fitting name (some (addr, rest)) alone n h a = (n, h)

two_words-Fitting :
    (o alone : Option (List ℕ × List ℕ))
    → FirstFits 31 o
    → Fitting alone
    → Fitting (two_words o alone)
two_words-Fitting none alone h a = a
two_words-Fitting (some (name, rest)) alone h a =
    named-Fitting name (scan_word 63 rest) alone h (scan_word-FirstFits 63 rest) a

name_and_addr-Fitting : (line : List ℕ) → Fitting (name_and_addr line)
unfolding name_and_addr
name_and_addr-Fitting line =
    two_words-Fitting (scan_word 31 line) (own_name (scan_word 63 line))
      (scan_word-FirstFits 31 line)
      (own_name-Fitting (scan_word 63 line) (scan_word-FirstFits 63 line))

split_colon-length : (cs : List ℕ) → length (split_colon cs).0 ≤ length cs
unfolding split_colon
split_colon-length [] = omega arith
split_colon-length (c ∷ cs) =
    if-elim (λ (x : List ℕ × Option (List ℕ)). length x.0 ≤ length (c ∷ cs)) (c == 58)
      (λ e. omega arith) (λ e. omega (arith, split_colon-length cs))

server_at-MaybeServer :
    (name addr : List ℕ) → length name ≤ 31 → length addr ≤ 63 → MaybeServer (server_at name addr)
unfolding server_at
server_at-MaybeServer name addr n a =
    let (host, digits) = split_colon addr in
    let port = port_value digits in
    if-elim MaybeServer (is_empty host || port == 0 || ltb 65535 port) (λ e. tt)
      (λ e. record {
        name_fits = n;
        host_fits = omega (arith, split_colon-length addr);
        has_host = ground arith;
        port_ok = (ground arith, ground arith);
      })

server_of-MaybeServer : (o : Option (List ℕ × List ℕ)) → Fitting o → MaybeServer (server_of o)
server_of-MaybeServer none h = tt
server_of-MaybeServer (some (name, addr)) (n, a) =
    server_at-MaybeServer name addr n (omega (arith, a))

parse_server-MaybeServer : (line : List ℕ) → MaybeServer (parse_server line)
unfolding parse_server
parse_server-MaybeServer line =
    server_of-MaybeServer (name_and_addr line) (name_and_addr-Fitting line)

-- What holds of the loop's state.
abbrev pub IsIdOk : ℕ → Type 0
IsIdOk id = (id ≡ 0) ⊎ ((bad_client_id id ≡ false) × (id < 65535))

pub record IsLoading (l : Loading) : Type 0 where
  pub all : AllServers l.servers
  pub id_ok : IsIdOk l.client_id

all-append :
    (ss : List Server) (s : Server) → AllServers ss → IsServer s → AllServers (ss ++ s ∷ [])
all-append [] s h i = (i, tt)
all-append (x ∷ ss) s (a, h) i = (a, all-append ss s h i)

with_server-IsLoading :
    (l : Loading) (o : Option Server) → IsLoading l → MaybeServer o → IsLoading (with_server l o)
with_server-IsLoading l none v h = v
with_server-IsLoading l (some s) v h = record {
  all = all-append l.servers s v.all h;
  id_ok = v.id_ok;
}

with_selected-IsLoading :
    (l others : Loading) (o : Option (List ℕ))
    → IsLoading l
    → IsLoading others
    → IsLoading (with_selected l o others)
with_selected-IsLoading l others none v h = h
with_selected-IsLoading l others (some t) v h = record { all = v.all; id_ok = v.id_ok }

with_id-IsLoading :
    (l others : Loading) (o : Option (List ℕ))
    → IsLoading l
    → IsLoading others
    → IsLoading (with_id l o others)
with_id-IsLoading l others none v h = h
with_id-IsLoading l others (some t) v h =
    let n = (strtol t).1 in
    if-elim IsLoading (valid_id (strtol t).0 n)
      (λ ok. record {
        all = v.all;
        id_ok = inr (unfold valid_id in ground arith, unfold valid_id in ground arith);
      })
      (λ no. v)

with_broadcast-IsLoading :
    (l others : Loading) (o : Option (List ℕ))
    → IsLoading l
    → IsLoading others
    → IsLoading (with_broadcast l o others)
with_broadcast-IsLoading l others none v h = h
with_broadcast-IsLoading l others (some t) v h = record { all = v.all; id_ok = v.id_ok }

with_enabled-IsLoading :
    (l others : Loading) (o : Option (List ℕ))
    → IsLoading l
    → IsLoading others
    → IsLoading (with_enabled l o others)
with_enabled-IsLoading l others none v h = h
with_enabled-IsLoading l others (some t) v h = record { all = v.all; id_ok = v.id_ok }

pub load_line-IsLoading : (l : Loading) (line : List ℕ) → IsLoading l → IsLoading (load_line l line)
unfolding load_line
load_line-IsLoading l line v =
    if-elim IsLoading (is_ignored line) (λ i. v)
      (λ i. with_enabled-IsLoading l _ (directive_value line enabled_name) v (
        with_broadcast-IsLoading l _ (directive_value line broadcast_name) v (
          with_id-IsLoading l _ (directive_value line id_name) v (
            with_selected-IsLoading l _ (directive_value line selected_name) v
              (with_server-IsLoading l (parse_server line) v (parse_server-MaybeServer line))))))
