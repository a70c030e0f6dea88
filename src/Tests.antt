-- ===== src/Tests.antt =====
-- The theorems at concrete inputs.
mod Cluster
mod Examples
mod AtWork
mod Repeated
mod Compositions
