-- ===== src/Ldn/Filter.antt =====
-- ScanFilter, and the selection that LANDiscovery::scan makes among the results of a scan.
pub mod Laws
use Prim.Native.Nat.{bit_and}
use ldn_mitm.Base.{
  ℕ, zero, suc, Bool, true, false, List, [], ◌∷◌, ◌&&◌, ◌||◌, not, ◌==◌, if◌then◌else◌, length,
}
use ldn_mitm.Ldn.{NetworkInfo, IntentId, SessionId, session_eq, blank_node, host_node}

pub record ScanFilter : Type 0 where
  pub intent_id : IntentId
  pub session_id : SessionId
  pub network_type : ℕ
  pub ssid : List ℕ
  pub flag : ℕ

abbrev pub flag_local_communication_id : ℕ
flag_local_communication_id = 1

abbrev pub flag_session_id : ℕ
flag_session_id = 2

abbrev pub flag_network_type : ℕ
flag_network_type = 4

abbrev pub flag_ssid : ℕ
flag_ssid = 16

abbrev pub flag_scene_id : ℕ
flag_scene_id = 32

abbrev pub has_flag : ScanFilter → ℕ → Bool
has_flag f bit = not (bit_and f.flag bit == 0)

-- Ssid::operator==
unfoldable pub ssid_eq : List ℕ → List ℕ → Bool
ssid_eq [] [] = true
ssid_eq [] (y ∷ ys) = false
ssid_eq (x ∷ xs) [] = false
ssid_eq (x ∷ xs) (y ∷ ys) = x == y && ssid_eq xs ys

-- `copy` after the five tests
unfoldable pub matches : ScanFilter → NetworkInfo → Bool
unfolding session_eq
matches f info =
    (not (has_flag f flag_local_communication_id)
      || f.intent_id.local_communication_id == info.intent_id.local_communication_id)
    && (not (has_flag f flag_session_id) || session_eq f.session_id info.session_id)
    && (not (has_flag f flag_network_type) || f.network_type == info.common.network_type)
    && (not (has_flag f flag_ssid) || ssid_eq f.ssid info.common.ssid)
    && (not (has_flag f flag_scene_id) || f.intent_id.scene_id == info.intent_id.scene_id)

-- nodes[0].userName[0] != 0
unfoldable pub has_host_name : NetworkInfo → Bool
has_host_name info = elim (host_node info).user_name [ [] ↦ false | c ∷ cs ↦ true ]

-- The loop over scanResults: `room` is how many more results the caller's array takes.
unfoldable pub select : ℕ → ScanFilter → List NetworkInfo → List NetworkInfo
unfolding matches has_host_name
select room f [] = []
select zero f (info ∷ rest) = []
select (suc room) f (info ∷ rest) =
    let taken = info ∷ select room f rest in
    let skipped = select (suc room) f rest in
    if matches f info then if has_host_name info then taken else skipped else skipped
