-- ===== src/Tests.antt =====
-- The theorems at work: findings, snapshots and Pods that are written out.
mod Findings
mod Snapshots
mod Pods
mod Objects
mod Workloads
mod Reads
mod Commands
