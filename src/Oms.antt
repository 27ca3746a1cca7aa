-- ===== src/Oms.antt =====
-- execution/oms.py, with the log of execution/oms_store.py and the vocabulary of
-- execution/broker.py: the life of an order from submission to its end, and crash recovery.
--
-- The three dicts `_orders`, `_fsms` and `_fills_by_order` get and keep the same keys; they are one
-- dict of entries, each an order, its state machine and its fills. The broker is outside: what it
-- answers to a call is an argument, callbacks that it makes during the call included. The lock makes
-- each call one step.
pub mod Vocabulary
pub mod State
pub mod Serialize
pub mod Handlers
pub mod Api
pub mod Replay
pub mod Recover
pub mod Agreement
pub mod History
pub mod Divergence
pub mod Lifecycle
pub mod Submission
pub mod Delivery
pub mod Reconcile
mod Examples
