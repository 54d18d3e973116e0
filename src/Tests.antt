-- ===== src/Tests.antt =====
-- Concrete runs of the modelled code.
mod Samples
mod Wire
mod Machine
mod Orphans
mod Keys
mod Startup
mod Ledger
mod Peers
mod Chain
mod Network
mod Histories
