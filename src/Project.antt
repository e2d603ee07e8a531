-- ===== src/Project.antt =====
-- internal/project: what is derived from an attempt's log and from the tickets' specs.
pub mod State
pub mod Axes
pub mod Edges
pub mod Fleet
