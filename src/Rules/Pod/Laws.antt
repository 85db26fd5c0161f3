-- ===== src/Rules/Pod/Laws.antt =====
-- The rules of internal/diagnosis/rules/pod together.
pub mod ContainerSeverities
pub mod ObjectSeverities
pub mod Severities
pub mod Ownership
pub mod Unknowns
pub mod Finished
pub mod Unscheduled
pub mod Probing
