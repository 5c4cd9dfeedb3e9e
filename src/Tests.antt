-- ===== src/Tests.antt =====
-- Concrete runs of the code: each theorem that has conditions is applied where they hold.
mod Fixtures
mod Wire
mod Queues
mod Lan
mod Tunnel
mod Fragments
mod Waits
mod Games
mod Settings
mod Streams
mod Events
mod Service
mod Link
