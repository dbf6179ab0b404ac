-- ===== src/Reconcile/Convergence.antt =====
-- Rounds of copies while the calls succeed.
pub mod Secrets
pub mod ConfigMaps
