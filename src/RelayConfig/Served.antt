-- ===== src/RelayConfig/Served.antt =====
-- The settings and the file under the commands of the configuration service.
use ldn_mitm.Base.{ℕ, ◌≡◌, List, some, get_elem?}
use ldn_mitm.RelayConfig.{Server, Config}
use ldn_mitm.RelayConfig.Parse.{index_of}
use ldn_mitm.RelayConfig.Settings.{IsName, IsStorable}
use ldn_mitm.RelayConfig.InSync.{InSync}
use ldn_mitm.RelayConfig.Service.{LdnConfig}

-- Each server has a name that can be read back, and is the first one of that name.
abbrev pub AllChoices : List Server → Type 0
AllChoices ss =
    (i : ℕ) (s : Server) → get_elem? ss i ≡ some s → IsName s.name × (index_of s.name ss ≡ some i)

-- The settings can be stored, whatever is chosen, and the file holds them.
pub record IsKept (c : Config) (file : List ℕ) : Type 0 where
  pub choices : AllChoices c.servers
  pub storable : IsStorable c
  pub in_sync : InSync c file

abbrev KeptPair : Config × List ℕ → Type 0
KeptPair (c, file) = IsKept c file

abbrev ServiceKept : LdnConfig → Type 0
ServiceKept s = IsKept s.config s.file
