-- ===== src/Lib.antt =====
-- The execution core of a multi-agent trading platform: the order management system with its event
-- log and crash recovery, the state machine that its orders follow, the kill switch, the tax lot
-- ledger, the wash-sale tracker, the LLM budget, the approval queue, and the way of an intent to an
-- order: the agent state tracker, the risk gate, the sizing rules and the planner. Beside it the
-- broker of the offline runs, the reconciler that compares a broker with the OMS, and the clock.
--
-- Parts, and the files that model them:
--   Prelude     shared names, Boolean tests, list, integer and dictionary lemmas, the equality class
--   Types       core/types.py: enums, dataclasses, normalize_symbol
--   Fsm         core/state_machine.py: StateMachine; Fsm/OrderFsm is build_order_fsm
--   KillSwitch  execution/kill_switch.py: KillSwitchEngine
--   Lots        execution/lots.py: LotLedger
--   Budget      execution/budget.py: BudgetLedger; Budget/Watcher is BudgetWatcher
--   Tax         execution/tax.py: WashSaleChecker
--   Approval    execution/approval_queue.py: ApprovalQueue
--   Sizing      execution/sizing.py, and RuntimeStore of config/runtime_store.py
--   Risk        execution/risk.py: RiskGate. Risk/Policy holds its tables, Risk/Checks the checks
--               that change nothing, Risk/Gate `check_intent` and the LETF activity
--   Universes   config/universes.py: liquidity tiers and slippage
--   Planner     execution/planner.py: ExecutionPlanner. Planner/Plan is `plan` and `_plan_close`,
--               Planner/Notional the gross of a sleeve
--   Tracker     execution/agent_state_tracker.py: AgentStateTracker. Tracker/Record is the record of
--               an agent, Tracker/Pnl the profits of its lots
--   Oms         execution/oms.py: OMS, with the vocabulary of execution/broker.py and the log of
--               execution/oms_store.py. Oms/State holds the state, Oms/Handlers the handlers of
--               broker events, Oms/Api the calls, Oms/Replay `_replay_log`, Oms/Recover `recover`;
--               the other files of Oms are proofs
--   FakeBroker  execution/fake_broker.py: FakeBroker. FakeBroker/Orders holds its calls,
--               FakeBroker/Requests histories of them, FakeBroker/Wired a submission of the OMS
--               that it answers
--   Reconciler  execution/reconciler.py: Reconciler. Reconciler/Orders is `_reconcile_orders`,
--               Reconciler/Positions `_reconcile_positions`, Reconciler/Pass `reconcile_once`
--   Clock       core/clock.py: the calendar of WallClock and BacktestClock
-- Below each part, files named for what they prove, and Examples with concrete cases.
--
-- How they interact. The OMS holds a state machine for each order and moves both by `_transition`.
-- An intent that the risk gate allows is sized by the planner, which reads the lots, the marks and
-- the state of the agent that the tracker keeps; its order goes to the OMS. The gate reads the kill
-- switch, the wash-sale records and the lots; the tracker tells the kill switch of losses.
-- The watcher of the budget reads the ledger and trips the kill switch. Fills that the OMS publishes
-- are booked in the lot ledger, which can also be rebuilt from the log of the OMS. The wash-sale
-- tracker takes closed lots, though nothing in the program hands it one. A broker answers the OMS
-- and calls it back with events; the reconciler polls the broker for the orders that are open, feeds
-- what it finds to the OMS, and trips or clears the kill switch by the positions.
--
-- Conventions. A function takes the state last and returns the new one, with its result or error in
-- front. Clock readings, drawn UUIDs (numbers here) and the broker's answers are arguments. A
-- Decimal that the source never lets be negative is a number of units of 10^-18, and a product of
-- two of them one of 10^-36; values that may be negative are integers over the same numbers. Times
-- are microseconds since the epoch, dates are days. Decimal arithmetic is exact but for division,
-- which rounds half to even, at the eighteenth place; in Sizing, Risk and Planner products too are
-- rounded there. Dictionaries are association lists that keep
-- the order of insertion. Every loop is over a list but
-- the search of the clock for a trading day, which takes fuel: 5 rounds are enough, since at most
-- four days in a row are closed.
--
-- Not modelled: threads and locks (each call is one step), SQLite and JSON as formats, the live
-- brokers, the agents and their prompts, market data and news, dashboards, reports and the wiring in
-- app.py. Handlers that a bus calls are taken not to raise. The square root of the Decimal
-- context and the Manager's file of sleeve weights are arguments.
pub mod Prelude
pub mod Types
pub mod Fsm
pub mod KillSwitch
pub mod Lots
pub mod Approval
pub mod Budget
pub mod Tax
pub mod Sizing
pub mod Universes
pub mod Planner
pub mod Tracker
pub mod Risk
pub mod FakeBroker
pub mod Reconciler
pub mod Clock
pub mod Oms
