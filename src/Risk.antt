-- ===== src/Risk.antt =====
-- execution/risk.py: the pre-trade risk gate.
--
-- Policy holds the tables and the decision, Checks the checks that change nothing, Gate the gate
-- itself. A veto is a value with what the source writes into its text. The kill switch, the
-- wash-sale records and the lots that the gate shares with the rest of the program are fields of its
-- state; the lock makes each call one step.
pub mod Policy
pub mod Checks
pub mod Gate
pub mod Safety
pub mod Windows
pub mod Letf
pub mod Exits
mod Examples
