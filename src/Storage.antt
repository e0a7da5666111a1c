-- ===== src/Storage.antt =====
-- job/job.go and job/util.go: jobs, runs and logs in files.
pub mod Os
pub mod Files
pub mod Jobs
pub mod Details
pub mod Lists
pub mod Logs
pub mod Shared
pub mod Locations
pub mod Effects
pub mod Transfer
pub mod Stopping
pub mod Pages
pub mod Contract
pub mod Refinement
