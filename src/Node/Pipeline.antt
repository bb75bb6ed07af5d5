-- ===== src/Node/Pipeline.antt =====
-- A change's way from the database of one node to the listener of another.
use harmonylite.Node.{Node}
use harmonylite.Logstream.ReplicationEvent.{ReplicationEvent}
