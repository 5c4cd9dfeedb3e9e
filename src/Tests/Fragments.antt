-- ===== src/Tests/Fragments.antt =====
-- A payload of 1480 bytes from the host to the guest.
use ldn_mitm.Base.{ℕ, List, replicate}
use ldn_mitm.Transport.{Transport}

abbrev full_datagram : List ℕ
full_datagram = replicate 1480 7
