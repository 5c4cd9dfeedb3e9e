-- ===== src/RelayConfig/InSync.antt =====
-- The settings in memory and the file, over any number of changes.
use ldn_mitm.Base.{ℕ, ◌≡◌, ◌≤◌, sym, ap, ◌∙◌, List, ◌++◌, Bool, true, length}
use ldn_mitm.RelayConfig.{Config}
use ldn_mitm.RelayConfig.Text.{tokens}
use ldn_mitm.RelayConfig.Parse.{read_config_file, load_config}
use ldn_mitm.RelayConfig.Persist.{setting_lines, unlines, persist_config}
use ldn_mitm.RelayConfig.Lines.{kept}
use ldn_mitm.RelayConfig.Head.{kept-append, kept_twice, kept-setting_lines}
use ldn_mitm.RelayConfig.Settings.{IsStorable}
use ldn_mitm.RelayConfig.RoundTrip.{tokens_persisted, load_config-persist_config}

-- The file holds the settings, and its other lines leave room for the settings' lines.
pub record InSync (c : Config) (file : List ℕ) : Type 0 where
  pub loads : (before : Bool) → load_config before file ≡ c
  pub room : length (unlines (kept (tokens (read_config_file file)))) ≤ 951

-- The other lines stay as they are.
pub kept_persisted :
    (c : Config) (file : List ℕ)
    → IsStorable c
    → length (unlines (kept (tokens (read_config_file file)))) ≤ 951
    → kept (tokens (read_config_file (persist_config c file)))
      ≡ kept (tokens (read_config_file file))
kept_persisted c file v h =
    let ts = kept (tokens (read_config_file file)) in
    ap kept (tokens_persisted c file v h)
    ∙ kept-append (setting_lines c) ts
    ∙ ap (λ ls. ls ++ kept ts) (kept-setting_lines c)
    ∙ kept_twice (tokens (read_config_file file))

-- The file holds the settings and has room. After a change that keeps the servers and gives settings that
-- can be stored, and the rewriting of the file, it holds the new settings, and has the same room: so this
-- is kept over any number of changes.
pub persist_config-InSync :
    (c c' : Config) (file : List ℕ)
    → InSync c file
    → c'.servers ≡ c.servers
    → IsStorable c'
    → InSync c' (persist_config c' file)
persist_config-InSync c c' file s e v = record {
  loads = λ before.
      load_config-persist_config c' before true file
        (e ∙ sym (ap (λ (x : Config). x.servers) (s.loads true))) v s.room;
  room = rw (kept_persisted c' file v s.room) s.room;
}
