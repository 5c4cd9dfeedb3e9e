-- ===== src/Discovery/Session/Teardown.antt =====
-- destroyNetwork and disconnect, while the worker goes on between their locks and after them.
use ldn_mitm.Base.{ℕ, ◌≡◌, refl, false}
use ldn_mitm.Ldn.{CommState}
use ldn_mitm.Discovery.{Discovery, emit, set_state}
use ldn_mitm.Discovery.Client.{is_station_connected}
use ldn_mitm.Discovery.Host.{is_hosting}
use ldn_mitm.Discovery.Run.{Reach}
use ldn_mitm.Discovery.Run.Keeps.{Moves, stays, joins, loses, fails}
use ldn_mitm.Discovery.Run.Invariant.{Reach-Keeps}
use ldn_mitm.Discovery.Session.{close_tcp, forget_join, leave, destroy_network, disconnect}

Moves-hosting : (a b : CommState) → Moves a b → is_hosting a ≡ false → is_hosting b ≡ false
Moves-hosting a _ (stays _) h = h
Moves-hosting _ _ joins h = refl
Moves-hosting _ _ loses h = refl
Moves-hosting _ _ (fails _) h = refl

destroy_network-Reach :
    (turns : ℕ → Discovery → Discovery) (d b : Discovery)
    → Reach (destroy_network turns d) b
    → is_hosting b.state ≡ false
unfolding destroy_network set_state emit
destroy_network-Reach turns d b r =
    Moves-hosting CommState.access_point b.state (Reach-Keeps _ b r).moves refl

disconnect-Reach :
    (turns : ℕ → Discovery → Discovery) (d c : Discovery)
    → ((j : ℕ) (x : Discovery) → Reach x (turns j x))
    → Reach (disconnect turns d) c
    → (c.join_active ≡ false) × (is_station_connected c.state ≡ false)
unfolding disconnect forget_join set_state emit
disconnect-Reach turns d c w r =
    let forgotten = forget_join (turns 2 (leave turns close_tcp d)) in
    let (still, _) = (Reach-Keeps forgotten _ (w 3 forgotten)).unjoined refl in
    let (j, s) = (Reach-Keeps _ c r).unjoined still in (j, s refl)

-- Whatever the worker's sockets bring while destroyNetwork and disconnect run (in `turns`, between their
-- locks) and afterwards: a host that has destroyed its network does not host again, and a station that
-- has disconnected is not connected again and has no network to join, until the game asks for it.
pub teardown-Reach :
    (turns : ℕ → Discovery → Discovery) (d b c : Discovery)
    → ((j : ℕ) (x : Discovery) → Reach x (turns j x))
    → Reach (destroy_network turns d) b
    → Reach (disconnect turns d) c
    → (is_hosting b.state ≡ false)
      × (is_station_connected c.state ≡ false)
      × (c.join_active ≡ false)
teardown-Reach turns d b c w r s =
    let (j, k) = disconnect-Reach turns d c w s in (destroy_network-Reach turns d b r, k, j)
