-- ===== src/Tests.antt =====
-- Runs of the model on small inputs, and each result at an input that meets its conditions.
pub mod Data
mod Counters
mod Roles
mod Proposals
mod Limits
mod Retries
mod Service
mod Increments
mod Http
mod Files
mod Peers
mod Listeners
mod Agreed
mod Admitted
mod Commands
mod Loads
