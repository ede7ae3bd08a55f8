-- ===== src/Area.antt =====
-- ospfd/area.
pub mod Nodes
pub mod Lsdb
pub mod Edges
pub mod Tree
pub mod Routes
