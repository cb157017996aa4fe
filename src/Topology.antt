-- ===== src/Topology.antt =====
-- internal/controller/topology: the computation of roles, links and forwarding tables.
pub mod Dag
pub mod Prune
pub mod Tables
pub mod Published
pub mod Vertex
pub mod Shortest
pub mod Baseline
pub mod Roles
pub mod Peers
pub mod Assign
pub mod Optimizer
mod Examples
