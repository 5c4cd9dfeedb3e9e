-- ===== src/Ldn.antt =====
-- ldn_mitm/source/ldn_types.hpp and .cpp: the structures that the games and the consoles exchange.
-- Unnamed padding is left out. A MacAddress is the number that its six bytes make, the first byte
-- the lowest, so `==` on numbers is its memcmp.
pub mod Filter
use ldn_mitm.Base.{
  ℕ, zero, suc, ◌+◌, ◌*◌, ◌^◌, List, [], ◌∷◌, Bool, true, false, ◌==◌, ◌&&◌, replicate, get_or,
}

abbrev pub node_count_max : ℕ
node_count_max = 8

abbrev pub station_count_max : ℕ
station_count_max = 7

abbrev pub advertise_data_size_max : ℕ
advertise_data_size_max = 384

pub data CommState : Type 0 where
  none initialized access_point access_point_created station station_connected error : CommState

pub data DisconnectReason : Type 0 where
  none disconnected_by_user disconnected_by_system : DisconnectReason
  destroyed_by_user destroyed_by_system : DisconnectReason
  rejected signal_lost : DisconnectReason

pub data NodeStatus : Type 0 where
  disconnected connect connected : NodeStatus

-- `is_connected` is 0 or not; `user_name` holds the bytes before the terminating zero.
pub record NodeInfo : Type 0 where
  pub ipv4_address : ℕ
  pub mac_address : ℕ
  pub node_id : ℕ
  pub is_connected : ℕ
  pub user_name : List ℕ
  pub local_communication_version : ℕ

abbrev pub blank_node : NodeInfo
blank_node = record {
  ipv4_address = 0;
  mac_address = 0;
  node_id = 0;
  is_connected = 0;
  user_name = [];
  local_communication_version = 0;
}

pub record IntentId : Type 0 where
  pub local_communication_id : ℕ
  pub scene_id : ℕ

pub record SessionId : Type 0 where
  pub high : ℕ
  pub low : ℕ

unfoldable pub session_eq : SessionId → SessionId → Bool
session_eq a b = a.low == b.low && a.high == b.high

pub record CommonNetworkInfo : Type 0 where
  pub bssid : ℕ
  pub ssid : List ℕ
  pub channel : ℕ
  pub link_level : ℕ
  pub network_type : ℕ

-- `nodes` has eight elements; `advertise_data` is the first `advertiseDataSize` bytes.
pub record LdnNetworkInfo : Type 0 where
  pub unk_random : List ℕ
  pub security_mode : ℕ
  pub node_count_limit : ℕ
  pub node_count : ℕ
  pub nodes : List NodeInfo
  pub advertise_data : List ℕ

pub record NetworkInfo : Type 0 where
  pub intent_id : IntentId
  pub session_id : SessionId
  pub common : CommonNetworkInfo
  pub ldn : LdnNetworkInfo

-- `networkInfo({})`
abbrev pub blank_network : NetworkInfo
blank_network = record {
  intent_id = record { local_communication_id = 0; scene_id = 0 };
  session_id = record { high = 0; low = 0 };
  common = record { bssid = 0; ssid = []; channel = 0; link_level = 0; network_type = 0 };
  ldn = record {
    unk_random = [];
    security_mode = 0;
    node_count_limit = 0;
    node_count = 0;
    nodes = replicate node_count_max blank_node;
    advertise_data = [];
  };
}

pub record NetworkConfig : Type 0 where
  pub intent_id : IntentId
  pub channel : ℕ
  pub node_count_limit : ℕ
  pub local_communication_version : ℕ

pub record SecurityParameter : Type 0 where
  pub unk_random : List ℕ
  pub session_id : SessionId

-- nodes[0]
abbrev pub host_node : NetworkInfo → NodeInfo
host_node info = get_or info.ldn.nodes 0 blank_node

-- NetworkInfo2NetworkConfig
unfoldable pub to_network_config : NetworkInfo → NetworkConfig
to_network_config info = record {
  intent_id = info.intent_id;
  channel = info.common.channel;
  node_count_limit = info.ldn.node_count_limit;
  local_communication_version = (host_node info).local_communication_version;
}

-- NetworkInfo2SecurityParameter
unfoldable pub to_security_parameter : NetworkInfo → SecurityParameter
to_security_parameter info = record {
  unk_random = info.ldn.unk_random;
  session_id = info.session_id;
}
