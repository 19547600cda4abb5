-- ===== src/Grouping.antt =====
-- Review groups of findings: app/engine/investigations.py and app/engine/grouping_materializer.py.
pub mod Model
pub mod Observe
pub mod Reference
pub mod Indexed
pub mod Sets
pub mod Edges
pub mod Lookup
pub mod Distinct
pub mod Agree
pub mod Paged
pub mod Materialize
pub mod Placed
pub mod Published
pub mod Active
pub mod Publication
pub mod Members
pub mod Counted
mod Tests
