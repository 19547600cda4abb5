-- ===== src/Graph/Flow.antt =====
-- Direct flows of funds around a node: query_flow of app/engine/graph/query.py.
pub mod Model
pub mod Sides
pub mod Query
pub mod Totals
pub mod DeadEnds
pub mod Ranking
pub mod Answered
mod Tests
