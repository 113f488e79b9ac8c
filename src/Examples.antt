-- ===== src/Examples.antt =====
-- Concrete data, runs of the definitions on it, and the theorems at it.
mod Data
mod Accounts
mod Frames
mod Flows
mod Intents
mod Connections
mod Redials
mod Bans
mod Addresses
mod Networks
mod Logins
mod Packets
mod Sealing
mod Leases
mod Peers
