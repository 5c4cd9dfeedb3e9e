-- ===== src/Transport/Receive/Fragments.antt =====
-- A packet that was sent as two fragments, at its receiver.
use ldn_mitm.Base.{ℕ, List}
use ldn_mitm.Transport.{Transport, FragSlot}
use ldn_mitm.Transport.Receive.{take_slot, fill_slot}

-- The slot of the first fragment, and of both.
abbrev first_slot : FragSlot → ℕ → ℕ → List ℕ → FragSlot
first_slot f id src chunk = fill_slot (take_slot id src f) 0 2 0 chunk
