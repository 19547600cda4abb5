-- ===== src/Graph.antt =====
-- Queries on a graph snapshot: app/engine/graph/query.py.
pub mod Reach
pub mod Query
pub mod Members
pub mod Neighbours
pub mod Reached
pub mod Distance
pub mod Keys
pub mod Offsets
pub mod Pages
pub mod Flow
pub mod Builder
pub mod Linked
pub mod Served
mod Tests
