-- ===== src/RelayConfig/Service.antt =====
-- The configuration service of ldn_mitm/source/ldnmitm_config.cpp: its flags, and the commands that read
-- and change them and the settings of the relay.
use ldn_mitm.Base.{ℕ, List, [], ◌∷◌, Bool, true, false, not, if◌then◌else◌, ◌==◌, leb, length, take}
use ldn_mitm.RelayConfig.{Config, server_name}
use ldn_mitm.RelayConfig.Persist.{persist_config, set_relay_enabled, select_server}

-- LdnEnabled, and the settings with the file they are kept in (BroadcastRelay is one of them)
pub record LdnConfig : Type 0 where
  pub ldn_enabled : Bool
  pub config : Config
  pub file : List ℕ

-- the commands, with their u32 arguments
pub data Command : Type 0 where
  get_enabled : Command
  set_enabled : ℕ → Command
  get_broadcast_relay : Command
  set_broadcast_relay : ℕ → Command
  get_internet_relay : Command
  set_internet_relay : ℕ → Command
  get_relay_server_count : Command
  get_relay_server_name : ℕ → Command
  get_selected_relay_server : Command
  set_selected_relay_server : ℕ → Command

-- what a command puts out
pub data Reply : Type 0 where
  done : Reply
  number : ℕ → Reply
  text : List ℕ → Reply

abbrev pub as_u32 : Bool → ℕ
as_u32 true = 1
as_u32 false = 0

abbrev with_settings : LdnConfig → Config × List ℕ → LdnConfig
with_settings s (c, file) = record s { config = c; file = file }

-- PersistSettings, after the flag is set
unfoldable pub broadcast_settings : Config → List ℕ → Bool → Config × List ℕ
broadcast_settings c file on =
    let c' : Config = record c { broadcast = on } in (c', persist_config c' file)

-- static_cast<int> of the index: from 2 ^ 31 it is negative, which both functions of the relay refuse
abbrev is_negative : ℕ → Bool
is_negative i = leb 2147483648 i

unfoldable pub select_index : Config → List ℕ → ℕ → Config × List ℕ
select_index c file i = if is_negative i then (c, file) else select_server c file i

unfoldable pub name_at : Config → ℕ → List ℕ
name_at c i = if is_negative i then [] else take 31 (server_name c i)

unfoldable pub on_command : LdnConfig → Command → LdnConfig × Reply
on_command s get_enabled = (s, number (as_u32 s.ldn_enabled))
on_command s (set_enabled n) = (record s { ldn_enabled = not (n == 0) }, done)
on_command s get_broadcast_relay = (s, number (as_u32 s.config.broadcast))
on_command s (set_broadcast_relay n) =
    (with_settings s (broadcast_settings s.config s.file (not (n == 0))), done)
on_command s get_internet_relay = (s, number (as_u32 s.config.enabled))
on_command s (set_internet_relay n) =
    (with_settings s (set_relay_enabled s.config s.file (not (n == 0))), done)
on_command s get_relay_server_count = (s, number (length s.config.servers))
on_command s (get_relay_server_name i) = (s, text (name_at s.config i))
on_command s get_selected_relay_server = (s, number s.config.selected)
on_command s (set_selected_relay_server i) =
    (with_settings s (select_index s.config s.file i), done)

-- commands, one after the other
unfoldable pub on_commands : LdnConfig → List Command → LdnConfig
on_commands s [] = s
on_commands s (k ∷ ks) = on_commands (on_command s k).0 ks
