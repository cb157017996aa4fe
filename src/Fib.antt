-- ===== src/Fib.antt =====
-- internal/transport/fib/fib.go: the forwarding table and the header work of the forwarding path.
pub mod Prefix
pub mod Table
pub mod Ttl
