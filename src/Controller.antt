-- ===== src/Controller.antt =====
-- internal/controller: the Wireguard reconciler and the injection reconcilers.
pub mod Peers
pub mod Dedupe
pub mod Reconcile
pub mod Gateway
pub mod Rollout
pub mod State
pub mod Status
pub mod Injection
pub mod Apply
pub mod Operator
