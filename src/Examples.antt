-- ===== src/Examples.antt =====
-- Runs and tests.
mod Data
mod Interfaces
mod Neighbors
mod Checksums
mod Databases
mod Originates
mod Floods
mod Receives
mod Exchanges
mod Replies
mod Systems
mod Histories
mod Intakes
mod Sends
