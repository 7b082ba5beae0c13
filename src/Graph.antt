-- ===== src/Graph.antt =====
-- packages/graph: presentations of a trace as a graph.
pub mod Grouping
pub mod Partition
pub mod Filter
pub mod Projection
pub mod Edges
pub mod Shown
mod Tests
