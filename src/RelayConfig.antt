-- ===== src/RelayConfig.antt =====
-- The relay settings of ldn_mitm/source/relay_client.cpp (the g_ variables and their accessors) and,
-- in the children, the file relay.cfg: Text (the C library's scanning), Parse (LoadConfig) and Persist
-- (PersistConfig and the operations that end in it); and Service (ldnmitm_config.cpp, the commands that
-- change the settings). Text is a list of bytes.
pub mod Text
pub mod Parse
pub mod Persist
pub mod Limits
pub mod Lines
pub mod Stored
pub mod Sound
pub mod InSync
pub mod Head
pub mod Service
pub mod Served
pub mod Settings
pub mod RoundTrip
use ldn_mitm.Base.{
  ℕ, ◌-◌, ◌/◌, ◌%◌, List, [], Bool, true, false, ◌||◌, ◌&&◌, Option, none, some, if◌then◌else◌,
  ◌==◌, ltb, length, get_elem?,
}

-- struct Server: name holds at most 31 bytes and host 63; ip is 0 for a host name.
pub record Server : Type 0 where
  pub name : List ℕ
  pub host : List ℕ
  pub ip : ℕ
  pub port : ℕ

abbrev pub max_servers : ℕ
max_servers = 8

abbrev pub server_name_len : ℕ
server_name_len = 32

-- g_servers and g_count, g_selected, g_enabled, g_client_id, and the flag of LdnConfig that is kept in
-- the same file.
pub record Config : Type 0 where
  pub servers : List Server
  pub selected : ℕ
  pub enabled : Bool
  pub client_id : ℕ
  pub broadcast : Bool

-- BadClientId
unfoldable pub bad_client_id : ℕ → Bool
bad_client_id id = id == 0 || id % 256 == 255 || id % 256 == 0 || id / 256 == 37

-- IsEnabled
unfoldable pub is_enabled : Config → Bool
is_enabled c = c.enabled && ltb 0 (length c.servers)

abbrev pub selected_server : Config → Option Server
selected_server c = get_elem? c.servers c.selected

abbrev pub ip_of : Option Server → ℕ
ip_of none = 0
ip_of (some s) = s.ip

abbrev pub host_of : Option Server → List ℕ
host_of none = []
host_of (some s) = s.host

abbrev pub port_of : Option Server → ℕ
port_of none = 0
port_of (some s) = s.port

abbrev pub name_of : Option Server → List ℕ
name_of none = []
name_of (some s) = s.name

-- ServerIp, ServerHost, ServerPort, ServerName
unfoldable pub server_ip : Config → ℕ
server_ip c = ip_of (selected_server c)

unfoldable pub server_host : Config → List ℕ
server_host c = host_of (selected_server c)

unfoldable pub server_port : Config → ℕ
server_port c = port_of (selected_server c)

unfoldable pub server_name : Config → ℕ → List ℕ
server_name c i = name_of (get_elem? c.servers i)
