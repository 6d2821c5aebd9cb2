-- ===== src/Api.antt =====
-- The Kubernetes API as the operator sees it: the resource types, the condition helpers and the client.
pub mod Types
pub mod Exec
pub mod External
pub mod Client
pub mod Returns
