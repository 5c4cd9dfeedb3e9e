-- ===== src/RelayConfig/Parse.antt =====
-- LoadConfig: relay.cfg, read into a buffer of 1024 bytes, gives the servers and the settings.
use ldn_mitm.Base.{
  ℕ, ◌+◌, ◌*◌, List, [], ◌∷◌, ◌++◌, Bool, true, false, not, ◌||◌, ◌&&◌, Option, none, some,
  if◌then◌else◌, ◌==◌, ltb, leb, length, take,
}
use ldn_mitm.RelayConfig.{Server, Config, max_servers, bad_client_id}
use ldn_mitm.RelayConfig.Text.{
  is_blank, is_empty, until_nul, tokens, skip_while, strtol, atoi, scan_word, scan_unsigned,
  scan_dot_unsigned, strip_prefix, split_colon, same_text,
}

-- ReadConfigFile: `file` is the file's bytes, none if it cannot be read.
unfoldable pub read_config_file : List ℕ → List ℕ
read_config_file file = until_nul (take 1023 file)

abbrev pub is_separator : ℕ → Bool
is_separator c = c == 61 || is_blank c

abbrev pub ends_name : List ℕ → Bool
ends_name [] = true
ends_name (c ∷ cs) = is_separator c

abbrev pub value_after : Option (List ℕ) → Option (List ℕ)
value_after none = none
value_after (some rest) = if ends_name rest then some (skip_while is_separator rest) else none

-- DirectiveValue
unfoldable pub directive_value : List ℕ → List ℕ → Option (List ℕ)
directive_value line name = value_after (strip_prefix name line)

abbrev pub is_some : Option (List ℕ) → Bool
is_some none = false
is_some (some v) = true

abbrev pub enabled_name : List ℕ
enabled_name = b'e' ∷ b'n' ∷ b'a' ∷ b'b' ∷ b'l' ∷ b'e' ∷ b'd' ∷ []

abbrev pub broadcast_name : List ℕ
broadcast_name = b'b' ∷ b'r' ∷ b'o' ∷ b'a' ∷ b'd' ∷ b'c' ∷ b'a' ∷ b's' ∷ b't' ∷ []

abbrev pub selected_name : List ℕ
selected_name = b's' ∷ b'e' ∷ b'l' ∷ b'e' ∷ b'c' ∷ b't' ∷ b'e' ∷ b'd' ∷ []

abbrev pub id_name : List ℕ
id_name = b'i' ∷ b'd' ∷ []

-- IsDirectiveLine
unfoldable pub is_directive_line : List ℕ → Bool
is_directive_line line =
    is_some (directive_value line enabled_name)
    || is_some (directive_value line broadcast_name)
    || is_some (directive_value line selected_name)
    || is_some (directive_value line id_name)

abbrev pub own_name : Option (List ℕ × List ℕ) → Option (List ℕ × List ℕ)
own_name none = none
own_name (some (addr, rest)) = some (take 31 addr, addr)

abbrev pub named :
    List ℕ → Option (List ℕ × List ℕ) → Option (List ℕ × List ℕ) → Option (List ℕ × List ℕ)
named name none alone = alone
named name (some (addr, rest)) alone = some (name, addr)

abbrev pub two_words :
    Option (List ℕ × List ℕ) → Option (List ℕ × List ℕ) → Option (List ℕ × List ℕ)
two_words none alone = alone
two_words (some (name, rest)) alone = named name (scan_word 63 rest) alone

-- "Name Addr", or just "Addr", which is its own name
unfoldable pub name_and_addr : List ℕ → Option (List ℕ × List ℕ)
name_and_addr line = two_words (scan_word 31 line) (own_name (scan_word 63 line))

-- a literal IPv4 address in host order, or 0: sscanf with "%u.%u.%u.%u"
unfoldable pub literal_ip : List ℕ → ℕ
literal_ip host = elim (scan_unsigned host) [
  | none ↦ 0
  | some (a, r) ↦ elim (scan_dot_unsigned r) [
    | none ↦ 0
    | some (b, r') ↦ elim (scan_dot_unsigned r') [
      | none ↦ 0
      | some (c, r'') ↦ elim (scan_dot_unsigned r'') [
        | none ↦ 0
        | some (d, _) ↦
            if leb a 255 && leb b 255 && leb c 255 && leb d 255
            then a * 16777216 + b * 65536 + c * 256 + d
            else 0
      ]
    ]
  ]
]

abbrev pub port_value : Option (List ℕ) → ℕ
port_value none = 11451
port_value (some digits) = atoi digits

-- a server of that name at "host[:port]"
unfoldable pub server_at : List ℕ → List ℕ → Option Server
server_at name addr =
    let (host, digits) = split_colon addr in
    let port = port_value digits in
    if is_empty host || port == 0 || ltb 65535 port
    then none
    else some (record { name = name; host = host; ip = literal_ip host; port = port })

abbrev pub server_of : Option (List ℕ × List ℕ) → Option Server
server_of none = none
server_of (some (name, addr)) = server_at name addr

unfoldable pub parse_server : List ℕ → Option Server
parse_server line = server_of (name_and_addr line)

-- What LoadConfig fills in, with pending_selected.
pub record Loading : Type 0 where
  pub servers : List Server
  pub enabled : Bool
  pub client_id : ℕ
  pub broadcast : Bool
  pub pending : List ℕ

-- One branch of the loop's body each: `none` is a line of another kind, for the branches that follow.
abbrev pub with_enabled : Loading → Option (List ℕ) → Loading → Loading
with_enabled l none others = others
with_enabled l (some v) others = record l { enabled = not (atoi v == 0) }

abbrev pub with_broadcast : Loading → Option (List ℕ) → Loading → Loading
with_broadcast l none others = others
with_broadcast l (some v) others = record l { broadcast = not (atoi v == 0) }

-- The long in the id directive, if it is one that can be drawn
unfoldable pub valid_id : Bool → ℕ → Bool
valid_id negative n = not negative && ltb 0 n && ltb n 0xFFFF && not (bad_client_id n)

abbrev pub with_id : Loading → Option (List ℕ) → Loading → Loading
with_id l none others = others
with_id l (some v) others =
    let (negative, n) = strtol v in if valid_id negative n then record l { client_id = n } else l

abbrev pub with_selected : Loading → Option (List ℕ) → Loading → Loading
with_selected l none others = others
with_selected l (some v) others = record l { pending = take 31 v }

abbrev pub with_server : Loading → Option Server → Loading
with_server l none = l
with_server l (some s) = record l { servers = l.servers ++ s ∷ [] }

abbrev pub is_ignored : List ℕ → Bool
is_ignored [] = true
is_ignored (c ∷ cs) = c == 35

-- the body of the loop, after the leading blanks
unfoldable pub load_line : Loading → List ℕ → Loading
load_line l line =
    if is_ignored line
    then l
    else with_enabled l (directive_value line enabled_name) (
        with_broadcast l (directive_value line broadcast_name) (
          with_id l (directive_value line id_name) (
            with_selected l (directive_value line selected_name)
              (with_server l (parse_server line)))))

-- the loop, which ends with the eighth server
unfoldable pub load_lines : Loading → List (List ℕ) → Loading
load_lines l [] = l
load_lines l (t ∷ ts) =
    if ltb (length l.servers) max_servers
    then load_lines (load_line l (skip_while is_blank t)) ts
    else l

-- the end of a text without its blanks
unfoldable pub trim_end : List ℕ → List ℕ
trim_end [] = []
trim_end (c ∷ cs) = let rest = trim_end cs in if is_empty rest && is_blank c then [] else c ∷ rest

unfoldable pub index_of : List ℕ → List Server → Option ℕ
index_of name [] = none
index_of name (s ∷ ss) =
    let later = index_of name ss in
    if same_text s.name name then some 0 else elim later [ none ↦ none | some i ↦ some (i + 1) ]

abbrev pub or_zero : Option ℕ → ℕ
or_zero none = 0
or_zero (some i) = i

unfoldable pub restore_selected : List ℕ → List Server → ℕ
restore_selected pending servers =
    let name = trim_end pending in if is_empty name then 0 else or_zero (index_of name servers)

abbrev pub no_settings : Bool → Loading
no_settings broadcast = record {
  servers = [];
  enabled = false;
  client_id = 0;
  broadcast = broadcast;
  pending = [];
}

abbrev pub loaded : Loading → Config
loaded l = record {
  servers = l.servers;
  selected = restore_selected l.pending l.servers;
  enabled = l.enabled;
  client_id = l.client_id;
  broadcast = l.broadcast;
}

-- LoadConfig; `broadcast` is the flag before.
unfoldable pub load_config : Bool → List ℕ → Config
load_config broadcast file =
    loaded (load_lines (no_settings broadcast) (tokens (read_config_file file)))
