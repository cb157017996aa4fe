-- ===== src/Wire.antt =====
-- internal/transport/frame.go: the frame format that nodes and relays share.
pub mod Addr
pub mod Header
pub mod Probe
pub mod Bandwidth
