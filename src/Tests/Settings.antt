-- ===== src/Tests/Settings.antt =====
-- A relay.cfg with a comment, three settings and two servers, and what becomes of it.
use ldn_mitm.Base.{
  ℕ, ◌≡◌, ◌≤◌, ◌<◌, ◌⊎◌, inl, inr, refl, List, [], ◌∷◌, true, false, some, length, arith,
}
use ldn_mitm.RelayConfig.{Config, bad_client_id}
use ldn_mitm.RelayConfig.Text.{
  until_nul, split, non_empty, tokens, skip_while, digits_value, strtol, atoi, word_of, scan_word,
  scan_unsigned, scan_dot_unsigned, strip_prefix, split_colon, same_text,
}
use ldn_mitm.RelayConfig.Parse.{
  is_directive_line, read_config_file, directive_value, name_and_addr, literal_ip, server_at,
  parse_server, valid_id, load_line, load_lines, trim_end, index_of, restore_selected, load_config,
}
use ldn_mitm.RelayConfig.Persist.{
  unlines, persist_config, set_relay_enabled, select_server, ensure_client_id,
}
use ldn_mitm.RelayConfig.Limits.{AllServers, IsIdOk}
use ldn_mitm.RelayConfig.Settings.{IsStorable}
use ldn_mitm.RelayConfig.Lines.{kept}
use ldn_mitm.RelayConfig.InSync.{InSync, kept_persisted, persist_config-InSync}
use ldn_mitm.RelayConfig.Service.{
  LdnConfig, Command, broadcast_settings, select_index, on_command, on_commands,
}
use ldn_mitm.RelayConfig.RoundTrip.{load_config-persist_config}
use ldn_mitm.RelayConfig.Sound.{load_config-AllServers, IsAssigned, ensure_client_id-IsAssigned}

-- '#x\nenabled=1\nid=300\nselected=b\na 1.2.3.4\nb x.org:99\n'
abbrev sample : List ℕ
sample =
    35 ∷ 120 ∷ 10 ∷ 101 ∷ 110 ∷ 97 ∷ 98 ∷ 108 ∷ 101 ∷ 100 ∷ 61 ∷ 49 ∷ 10 ∷ 105 ∷ 100 ∷ 61 ∷ 51 ∷ 48
    ∷ 48 ∷ 10 ∷ 115 ∷ 101 ∷ 108 ∷ 101 ∷ 99 ∷ 116 ∷ 101 ∷ 100 ∷ 61 ∷ 98 ∷ 10 ∷ 97 ∷ 32 ∷ 49 ∷ 46 ∷ 50
    ∷ 46 ∷ 51 ∷ 46 ∷ 52 ∷ 10 ∷ 98 ∷ 32 ∷ 120 ∷ 46 ∷ 111 ∷ 114 ∷ 103 ∷ 58 ∷ 57 ∷ 57 ∷ 10 ∷ []

-- the settings of that file, with the relay switched off and the fan-out on
abbrev switched_off : Config
switched_off = record {
  servers =
      record {
        name = b'a' ∷ [];
        host = 49 ∷ 46 ∷ 50 ∷ 46 ∷ 51 ∷ 46 ∷ 52 ∷ [];
        ip = 0x01020304;
        port = 11451;
      }
      ∷ record { name = b'b' ∷ []; host = 120 ∷ 46 ∷ 111 ∷ 114 ∷ 103 ∷ []; ip = 0; port = 99 }
      ∷ [];
  selected = 1;
  enabled = false;
  client_id = 300;
  broadcast = true;
}

sample_servers : switched_off.servers ≡ (load_config true sample).servers
unfolding load_config load_lines tokens non_empty split read_config_file until_nul load_line
    skip_while restore_selected directive_value strip_prefix valid_id strtol digits_value
    bad_client_id parse_server name_and_addr index_of literal_ip server_at trim_end atoi same_text
    scan_dot_unsigned scan_unsigned scan_word split_colon word_of
sample_servers = refl

switched_off-IsStorable : IsStorable switched_off
unfolding valid_id bad_client_id index_of same_text
switched_off-IsStorable = record {
  id_ok = inr refl;
  chosen = (record { word = refl; starts = refl; fits = omega arith }, refl);
}

sample_room : length (unlines (kept (tokens (read_config_file sample)))) ≤ 951
unfolding unlines kept tokens non_empty split read_config_file until_nul is_directive_line
    skip_while directive_value strip_prefix
sample_room = omega arith

load_config-persist_config_example :
    load_config false (persist_config switched_off sample) ≡ switched_off
load_config-persist_config_example =
    load_config-persist_config switched_off false true sample sample_servers switched_off-IsStorable
      sample_room

-- the file after the relay was switched off
abbrev rewritten : List ℕ
rewritten = persist_config switched_off sample

rewritten-InSync : InSync switched_off rewritten
rewritten-InSync = record {
  loads = λ before.
      load_config-persist_config switched_off before true sample sample_servers
        switched_off-IsStorable sample_room;
  room = rw (kept_persisted switched_off sample switched_off-IsStorable sample_room) sample_room;
}

-- the other server is chosen
abbrev other_server : Config
other_server = record switched_off { selected = 0 }

other_server-IsStorable : IsStorable other_server
unfolding valid_id bad_client_id index_of same_text
other_server-IsStorable = record {
  id_ok = inr refl;
  chosen = (record { word = refl; starts = refl; fits = omega arith }, refl);
}

persist_config-InSync_example : InSync other_server (persist_config other_server rewritten)
persist_config-InSync_example =
    persist_config-InSync switched_off other_server rewritten rewritten-InSync refl
      other_server-IsStorable

-- The service with those settings, and commands of which the last is refused.
abbrev service : LdnConfig
service = record { ldn_enabled = true; config = switched_off; file = rewritten }

abbrev commands : List Command
commands =
    Command.set_internet_relay 1
    ∷ Command.set_selected_relay_server 0
    ∷ Command.set_broadcast_relay 0
    ∷ Command.set_selected_relay_server 7
    ∷ []

after_commands :
    ((on_commands service commands).config.selected ≡ 0)
    × ((on_commands service commands).config.enabled ≡ true)
    × ((on_commands service commands).config.broadcast ≡ false)
unfolding on_commands on_command broadcast_settings set_relay_enabled select_index select_server
after_commands = (refl, refl, refl)

load_config-AllServers_example :
    let c = load_config false sample in
    AllServers c.servers
    × (length c.servers ≤ 8)
    × IsIdOk c.client_id
    × ((c.selected < length c.servers) ⊎ (c.selected ≡ 0))
load_config-AllServers_example = load_config-AllServers false sample

-- Draws of a rejected and of a good id, while another thread was first with 300.
ensure_client_id-IsAssigned_example :
    (r : ℕ × Config × List ℕ) × (ensure_client_id
        (record switched_off { client_id = 0 })
        sample
        (0x2501 ∷ 0x1234 ∷ [])
        300
      ≡ some r)
    × IsAssigned r
unfolding bad_client_id
ensure_client_id-IsAssigned_example =
    ensure_client_id-IsAssigned (record switched_off { client_id = 0 }) sample
      (0x2501 ∷ 0x1234 ∷ []) 300 refl (inl refl) (inr refl)
