-- ===== src/Checks.antt =====
-- action/: the actions that check contracts with a tool and gather its findings.
pub mod Types
pub mod Lines
pub mod Walk
pub mod Machine
pub mod Gather
pub mod SolHint
pub mod SolProfiler
pub mod MythRil
pub mod MoveProver
pub mod Slither
pub mod Eslint
pub mod Aggregation
pub mod GasReporter
