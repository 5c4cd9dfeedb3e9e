-- ===== src/RelayConfig/Persist.antt =====
-- PersistConfig, and the operations that change a setting and write the file again. `file` is what the
-- file holds before; the file system calls succeed.
use ldn_mitm.Base.{
  ℕ, zero, suc, ◌+◌, ◌/◌, ◌%◌, List, [], ◌∷◌, ◌++◌, Bool, true, false, Option, none, some,
  if◌then◌else◌, ◌==◌, ltb, leb, length,
}
use ldn_mitm.RelayConfig.{Server, Config, bad_client_id, selected_server}
use ldn_mitm.RelayConfig.Text.{is_blank, tokens, skip_while}
use ldn_mitm.RelayConfig.Parse.{
  read_config_file, is_directive_line, enabled_name, broadcast_name, selected_name, id_name,
}

-- %u of snprintf: the digits of `n` before `acc`, for a number of at most `count` digits
unfoldable pub digits_of : ℕ → ℕ → List ℕ → List ℕ
digits_of zero n acc = acc
digits_of (suc count) n acc =
    let higher = digits_of count (n / 10) ((n % 10 + 48) ∷ acc) in
    if ltb n 10 then (n + 48) ∷ acc else higher

-- five digits hold 16 bits
abbrev pub decimal : ℕ → List ℕ
decimal n = digits_of 5 n []

abbrev pub flag : Bool → List ℕ
flag true = b'1' ∷ []
flag false = b'0' ∷ []

abbrev pub assign : List ℕ → List ℕ → List ℕ
assign name value = name ++ b'=' ∷ value

abbrev pub id_lines : ℕ → List (List ℕ)
id_lines id = if id == 0 then [] else assign id_name (decimal id) ∷ []

abbrev pub selected_lines : Option Server → List (List ℕ)
selected_lines none = []
selected_lines (some s) = assign selected_name s.name ∷ []

-- the settings, as the first lines of the file
unfoldable pub setting_lines : Config → List (List ℕ)
setting_lines c =
    assign enabled_name (flag c.enabled)
    ∷ assign broadcast_name (flag c.broadcast)
    ∷ (id_lines c.client_id ++ selected_lines (selected_server c))

-- lines with their ends
unfoldable pub unlines : List (List ℕ) → List ℕ
unlines [] = []
unlines (l ∷ ls) = l ++ b'\n' ∷ unlines ls

-- the other lines of the file, as long as they fit into the 1280 bytes of `out`
unfoldable pub copy_lines : ℕ → List (List ℕ) → List ℕ
copy_lines pos [] = []
copy_lines pos (t ∷ ts) =
    if is_directive_line (skip_while is_blank t)
    then copy_lines pos ts
    else if leb 1280 (pos + (length t + 1))
    then []
    else t ++ b'\n' ∷ copy_lines (pos + (length t + 1)) ts

-- PersistConfig: the new file
unfoldable pub persist_config : Config → List ℕ → List ℕ
persist_config c file =
    let head = unlines (setting_lines c) in
    head ++ copy_lines (length head) (tokens (read_config_file file))

-- SetRelayEnabled
unfoldable pub set_relay_enabled : Config → List ℕ → Bool → Config × List ℕ
set_relay_enabled c file on =
    let c' : Config = record c { enabled = on } in (c', persist_config c' file)

-- SelectServer
unfoldable pub select_server : Config → List ℕ → ℕ → Config × List ℕ
select_server c file i =
    let c' : Config = record c { selected = i } in
    if ltb i (length c.servers) then (c', persist_config c' file) else (c, file)

-- the first good id among the random draws; `none` when the draws given run out
unfoldable pub draw_id : List ℕ → Option ℕ
draw_id [] = none
draw_id (n ∷ ns) = if bad_client_id n then draw_id ns else some n

-- A fresh id is put there, unless another thread was first (compare_exchange_strong).
abbrev pub exchange : Config → List ℕ → ℕ → Option ℕ → Option (ℕ × Config × List ℕ)
exchange c file others none = none
exchange c file others (some fresh) =
    let mine : Config = record c { client_id = fresh } in
    let theirs : Config = record c { client_id = others } in
    if others == 0
    then some (fresh, mine, persist_config mine file)
    else some (others, theirs, file)

-- EnsureClientId: `others` is the id that another thread has put there meanwhile, 0 for none.
unfoldable pub ensure_client_id : Config → List ℕ → List ℕ → ℕ → Option (ℕ × Config × List ℕ)
ensure_client_id c file draws others =
    if c.client_id == 0 then exchange c file others (draw_id draws) else some (c.client_id, c, file)
