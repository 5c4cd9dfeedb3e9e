-- ===== src/Tests/Events.antt =====
-- A host hears its guest's heartbeat, and then loses its UDP socket.
use Prim.{tt}
use ldn_mitm.Discovery.{Discovery, relay_heartbeat}
use ldn_mitm.Discovery.Host.{udp_on_close}
use ldn_mitm.Discovery.Relay.{relay_on_read}
use ldn_mitm.Discovery.Run.{here, after, from_relay, udp_closed}
use ldn_mitm.Discovery.Run.Keeps.{Keeps}
use ldn_mitm.Discovery.Run.Invariant.{Reach-Keeps}
use ldn_mitm.Tests.Fixtures.{lan_env, with_guest, guest_beat}

abbrev heard : Discovery
heard = relay_on_read (lan_env 4000) with_guest (relay_heartbeat guest_beat) 0

Reach-Keeps_example : Keeps with_guest (udp_on_close heard)
Reach-Keeps_example = Reach-Keeps with_guest (udp_on_close heard) (
    after with_guest heard (udp_on_close heard)
      (after with_guest with_guest heard (here with_guest)
        (from_relay (lan_env 4000) with_guest (relay_heartbeat guest_beat) 0 tt))
      (udp_closed heard))
