-- ===== src/Examples.antt =====
-- Concrete inputs for the theorems.
mod Filters
mod Fixtures
mod Records
mod Runs
mod Selections
mod Panics
mod Filtering
mod Failures
mod Recordings
mod Configurations
mod Clusters
mod Processes
mod Waits
mod Restarts
mod Network
mod Names
mod Certificates
mod Expansion
mod Generated
