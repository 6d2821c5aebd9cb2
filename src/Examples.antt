-- ===== src/Examples.antt =====
-- Runs of the definitions on concrete inputs, and the witnesses of the theorems.
mod Fixtures
mod Netip
mod Reconcile
mod State
mod Sidecar
mod Server
mod Operator
mod Gateway
mod Node
mod Agent
mod Pass
mod Policy
mod Check
mod Routes
