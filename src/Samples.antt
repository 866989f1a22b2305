-- ===== src/Samples.antt =====
-- Concrete inputs, runs of the definitions on them, and the theorems at them.
mod Worlds
mod Schedules
mod Fetches
mod Merges
mod Policies
mod Processors
mod Specs
mod Expiries
mod Holds
mod Documents
mod Batches
mod Restarts
mod CidrUpdates
mod Addresses
mod Numbers
mod Requests
mod Servers
