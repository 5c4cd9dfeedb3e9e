-- ===== src/Tests/Service.antt =====
-- The commands of a game, and a round of the worker's poll on a host.
use Prim.{tt}
use ldn_mitm.Base.{◌≡◌, refl, [], ◌∷◌, true, false, some, arith}
use ldn_mitm.Ldn.{CommState, NetworkConfig, SecurityParameter}
use ldn_mitm.Discovery.{relay_heartbeat}
use ldn_mitm.Discovery.Session.{success, create_network}
use ldn_mitm.Discovery.Run.Keeps.{Keeps}
use ldn_mitm.Discovery.Poll.{Revents, packet, no_packet, accepts, Event, Round, loop_poll}
use ldn_mitm.Discovery.Poll.Refine.{loop_poll-Keeps}
use ldn_mitm.Ipc.{Service, run, get_state, get_security_parameter, get_network_config}
use ldn_mitm.Ipc.Created.{chosen_channel, create_network-get_network_config}
use ldn_mitm.Tests.Fixtures.{lan_env, host_ip, idle, with_guest, guest_beat}

abbrev opened : Service
opened = record {
  lan = record idle { state = CommState.access_point };
  nifm = record {
    sessions = 1;
    mtu = 1500;
    original_mtu = 1500;
    request_open = true;
    relay_session = false;
  };
  event = some false;
  error_state = 0;
}

abbrev open_channel : NetworkConfig
open_channel = record {
  intent_id = record { local_communication_id = 9; scene_id = 1 };
  channel = 0;
  node_count_limit = 4;
  local_communication_version = 2;
}

abbrev link_code : SecurityParameter
link_code = record { unk_random = 1 ∷ 2 ∷ []; session_id = record { high = 5; low = 6 } }

create_network-get_network_config_example :
    let (d, rc) =
      create_network
        (lan_env 0)
        opened.lan
        success
        1
        (0x41 ∷ [])
        open_channel
        (record { high = 0; low = 0 })
        (some link_code) in
    let s' = run opened d in
    (rc ≡ success)
    × ((get_state s').0 ≡ 3)
    × (get_security_parameter s' ≡ some link_code)
    × (get_network_config s' ≡ some (chosen_channel open_channel))
create_network-get_network_config_example =
    create_network-get_network_config (lan_env 0) opened host_ip 1 (0x41 ∷ []) open_channel
      (record { high = 0; low = 0 }) link_code refl refl (omega arith) refl

abbrev silent : Event
silent = record {
  revents = record { gone = false; error = false; readable = false };
  input = no_packet;
}

abbrev busy : Revents
busy = record { gone = false; error = false; readable = true }

-- A heartbeat from the relay, a station that is accepted, and the guest's socket breaking.
abbrev round : Round
round = record {
  udp = silent;
  tcp = record { revents = busy; input = accepts (some 12) };
  relay = record { revents = busy; input = packet (relay_heartbeat guest_beat) 0 };
  stations = record { revents = record busy { gone = true }; input = no_packet } ∷ [];
}

round_ends : Keeps with_guest (loop_poll (lan_env 2000) round with_guest)
round_ends =
    loop_poll-Keeps (lan_env 2000) round with_guest (record { udp = tt; tcp = tt; relay = tt })
