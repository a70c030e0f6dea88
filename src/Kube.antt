-- ===== src/Kube.antt =====
-- The program's calls of the Kubernetes API, of the Discord API and of the libraries.
pub mod Json
pub mod Objects
pub mod Prog
pub mod Library
pub mod Reconcile
pub mod Monitor
pub mod Lawful
pub mod Run
pub mod Journal
pub mod Outcome
