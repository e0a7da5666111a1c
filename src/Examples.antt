-- ===== src/Examples.antt =====
-- Concrete runs of the theorems: a job with two stages, a dispatcher with two nodes, and an executor
-- whose first action fails.
pub mod Sorting
pub mod Nodes
pub mod Runs
pub mod Keys
pub mod Masters
pub mod Logs
pub mod Disks
pub mod Folders
pub mod Launches
pub mod Parsing
pub mod Scans
pub mod Service
pub mod Transfers
pub mod Hosts
pub mod Reports
pub mod Counts
