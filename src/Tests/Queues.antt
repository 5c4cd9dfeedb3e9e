-- ===== src/Tests/Queues.antt =====
-- The game's queue and the results of a scan.
use ldn_mitm.Base.{ℕ, ◌≡◌, refl, [], ◌∷◌, arith, take, replicate}
use ldn_mitm.Ldn.{blank_network}
use ldn_mitm.Ldn.Filter.{ScanFilter, select}
use ldn_mitm.Ldn.Filter.Laws.{eligible, select-eligible}
use ldn_mitm.GameRx.{GameRx, Entry, initial, push, pop, max_entries}
use ldn_mitm.GameRx.Ring.{IsValid, push-IsValid, contents}
use ldn_mitm.GameRx.Refine.{enqueue, dequeue, push_refines, pop_refines}
use ldn_mitm.Tests.Fixtures.{hosted, joined}

abbrev datagram : ℕ → Entry
datagram n = record { src_ip = 9; sport = 12345; dport = 12345; payload = n ∷ [] }

-- a ring that wrapped round and is full
abbrev full_ring : GameRx
full_ring = record initial { ring = replicate max_entries (datagram 0); head = 31; count = 32 }

abbrev full_ring-IsValid : IsValid full_ring
full_ring-IsValid = record { slots = refl; head_in = omega arith; count_in = omega arith }

push-IsValid_example : IsValid (push full_ring (datagram 4))
push-IsValid_example = push-IsValid full_ring (datagram 4) full_ring-IsValid

push_refines_example :
    contents (push full_ring (datagram 4)) ≡ enqueue (contents full_ring) (datagram 4)
push_refines_example = push_refines full_ring (datagram 4) full_ring-IsValid

pop_refines_example :
    let (g', out) = pop full_ring 2048 in (contents g', out) ≡ dequeue (contents full_ring) 2048
pop_refines_example = pop_refines full_ring 2048 full_ring-IsValid

abbrev any_network : ScanFilter
any_network = record {
  intent_id = blank_network.intent_id;
  session_id = blank_network.session_id;
  network_type = 0;
  ssid = [];
  flag = 0;
}

select-eligible_example :
    select 1 any_network (blank_network ∷ hosted ∷ joined ∷ [])
    ≡ take 1 (eligible any_network (blank_network ∷ hosted ∷ joined ∷ []))
select-eligible_example = select-eligible 1 any_network (blank_network ∷ hosted ∷ joined ∷ [])
