-- ===== src/RelayConfig/RoundTrip.antt =====
-- PersistConfig and LoadConfig: the settings written are the settings read.
use ldn_mitm.Base.{
  ℕ, ◌≡◌, ◌≤◌, refl, sym, ap, ◌∙◌, List, ◌++◌, Bool, Option, none, some, if-elim, length,
  length-append, take, take-all, length-take, arith,
}
use ldn_mitm.RelayConfig.{Server, Config, selected_server}
use ldn_mitm.RelayConfig.Text.{is_empty, until_nul, tokens}
use ldn_mitm.RelayConfig.Parse.{
  Loading, read_config_file, load_lines, trim_end, restore_selected, no_settings, loaded,
  load_config,
}
use ldn_mitm.RelayConfig.Persist.{setting_lines, unlines, copy_lines, persist_config}
use ldn_mitm.RelayConfig.Lines.{
  kept, tokens-all_tokens, kept-all_tokens, tokens-unlines, unlines-append, tokens-length,
  until_nul-length, copy_lines-kept,
}
use ldn_mitm.RelayConfig.Stored.{load_lines-kept}
use ldn_mitm.RelayConfig.Head.{length-setting_lines}
use ldn_mitm.RelayConfig.Settings.{
  IsFirst, IsStorable, setting_lines-tokens, all_tokens-append, settings_of, with_pending,
  load_lines-setting_lines, trim_end-name,
}

pub tokens_persisted :
    (c : Config) (file : List ℕ)
    → IsStorable c
    → length (unlines (kept (tokens (read_config_file file)))) ≤ 951
    → tokens (read_config_file (persist_config c file))
      ≡ setting_lines c ++ kept (tokens (read_config_file file))
unfolding read_config_file persist_config
tokens_persisted c file v h =
    let head = setting_lines c in
    let old = take 1023 file in
    let ts = tokens (until_nul old) in
    let lines = head ++ kept ts in
    let sizes : length (unlines ts) ≤ 1024 =
      omega (arith, tokens-length (until_nul old), until_nul-length old, length-take 1023 file) in
    let settings = length-setting_lines c v in
    let text : unlines head ++ copy_lines (length (unlines head)) ts ≡ unlines lines =
      ap (◌++◌ (unlines head))
        (copy_lines-kept (length (unlines head)) ts (omega (arith, sizes, settings)))
      ∙ sym (unlines-append head (kept ts)) in
    let short : length (unlines lines) ≤ 1023 =
      rw (unlines-append head (kept ts))
        (omega (arith, h, settings, length-append (unlines head) (unlines (kept ts)))) in
    ap (λ t. tokens (until_nul (take 1023 t))) text
    ∙ ap (λ t. tokens (until_nul t)) (take-all 1023 (unlines lines) short)
    ∙ tokens-unlines lines (
        all_tokens-append head (kept ts) (setting_lines-tokens c v)
          (kept-all_tokens ts (tokens-all_tokens old)))

restore_selected-storable :
    (c : Config) (o : Option Server)
    → IsFirst c o
    → restore_selected (with_pending (settings_of c) o).pending c.servers ≡ c.selected
unfolding restore_selected trim_end
restore_selected-storable c none h = sym h
restore_selected-storable c (some s) (n, e) = rw (trim_end-name s.name n.word) (
    if-elim (λ i. i ≡ c.selected) (is_empty s.name) (λ z. absurd (ground (arith, n.starts)))
      (λ k. rw e refl))

with_pending-servers : (l : Loading) (o : Option Server) → (with_pending l o).servers ≡ l.servers
with_pending-servers l none = refl
with_pending-servers l (some s) = refl

loaded_pending :
    (c : Config) (o : Option Server)
    → IsFirst c o
    → loaded (record (with_pending (settings_of c) o) { servers = c.servers }) ≡ c
loaded_pending c none h = ap (λ i. record c { selected = i }) (restore_selected-storable c none h)
loaded_pending c (some s) h =
    ap (λ i. record c { selected = i }) (restore_selected-storable c (some s) h)

-- The settings, with the servers that the file lists, are stored in the file: the chosen server is the
-- first of its name, which is a word of at most 31 bytes not starting with '=' (or there are no servers
-- and the choice is 0), and the client id is none or a valid one. If the other lines of the file take at
-- most 951 bytes, LoadConfig reads exactly these settings and these servers from the new file, whatever
-- the broadcast flag was.
pub load_config-persist_config :
    (c : Config) (before before' : Bool) (file : List ℕ)
    → c.servers ≡ (load_config before' file).servers
    → IsStorable c
    → length (unlines (kept (tokens (read_config_file file)))) ≤ 951
    → load_config before (persist_config c file) ≡ c
unfolding load_config
load_config-persist_config c before before' file same v h =
    let ts = tokens (read_config_file file) in
    let o = selected_server c in
    let l = with_pending (settings_of c) o in
    ap (λ x. loaded (load_lines (no_settings before) x)) (tokens_persisted c file v h)
    ∙ ap loaded (load_lines-setting_lines c before (kept ts) v)
    ∙ ap loaded
        (load_lines-kept l (no_settings before') ts (with_pending-servers (settings_of c) o))
    ∙ ap (λ ss. loaded (record l { servers = ss })) (sym same)
    ∙ loaded_pending c o v.chosen
