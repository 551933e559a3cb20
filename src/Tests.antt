-- ===== src/Tests.antt =====
-- The theorems at concrete data, and runs of the model.
mod Keys
mod Replicas
mod Reconciling
mod Predictors
mod Rounds
mod Systems
mod Windows
mod Sockets
mod Races
mod Handling
