-- ===== src/FlowTrack.antt =====
-- internal/nodecore/flowtrack: the five-tuple of a raw IPv4 packet, and the table of flows in shards.
pub mod Packet
pub mod Tracker
