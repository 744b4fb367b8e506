-- ===== src/Tests.antt =====
-- Concrete inputs of the theorems.
mod Fixtures
mod Groups
mod Stores
mod Views
mod Peers
mod Guests
mod Queues
mod Starts
mod Broadcasts
mod Clients
mod Cluster
mod Registries
mod Events
mod Races
mod Beats
mod Logins
mod Logging
mod Applications
