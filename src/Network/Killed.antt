-- ===== src/Network/Killed.antt =====
-- A server that was killed before the test after the handler does not answer any more.
use distributed_systems_mit.Network.{Network}
