-- ===== src/MetaScan.antt =====
-- action/action_metascan_check.go `MetaScanCheckAction`: what the service MetaTrust is sent and
-- answers, the requests with their new token, the reports and `Hook`. Package resty, with the service
-- behind it, is the interface `Http`: an operation for each request, over an unknown state of the
-- service. The packages json and gjson are the interface `Json` of the reports, and what copier copies
-- is the whole record.
pub mod Types
pub mod Requests
pub mod Analyzer
pub mod Quality
pub mod Prover
pub mod Methods
pub mod Run
pub mod Tokens
pub mod Counts
pub mod Polls
