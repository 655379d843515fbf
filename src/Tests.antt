-- ===== src/Tests.antt =====
-- Runs of the model: the theorems of the development at concrete inputs.
mod Sample
mod Domain
mod Storage
mod Controller
mod Provider
mod Hosts
mod Config
mod Socket
mod Server
mod Daemon
mod Cli
mod Calls
mod Demand
