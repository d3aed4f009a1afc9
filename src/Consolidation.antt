-- ===== src/Consolidation.antt =====
-- consolidation/: the union-find engine that groups findings, and the rule that merges the groups.
pub mod DisjointSet
pub mod Dedup
pub mod Rule
