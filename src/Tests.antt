-- ===== src/Tests.antt =====
-- Runs of the model at concrete inputs.
mod Arcs
mod Sets
mod Combined
mod Times
mod Partitions
mod Slices
mod Sectors
mod Snapshots
mod Exchanges
mod Gossips
mod Bursts
mod Storage
