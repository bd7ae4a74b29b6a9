-- ===== src/Vault.antt =====
-- The vault client (vault/src): deadlines, payment and cancellation of requests, and the relayer.
pub mod Deadline
pub mod Cancellation
pub mod Execution
pub mod Payment
pub mod Relay
pub mod IssueSet
pub mod Issue
pub mod Replace
pub mod Process
pub mod Delay
