-- ===== src/Examples.antt =====
-- Concrete runs: a small platform, and the theorems at inputs that their conditions admit.
mod Demo
mod Storage
mod Ports
mod Runs
mod Polling
mod Comments
mod Tabs
mod Admission
mod Pool
mod Sweeps
mod Documents
mod Connections
mod Updates
