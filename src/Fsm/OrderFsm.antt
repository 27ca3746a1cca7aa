-- ===== src/Fsm/OrderFsm.antt =====
-- `build_order_fsm` of core/state_machine.py: the life of an order. Its arcs have no guard and no
-- action, so the environment is `Unit`.
use multi_agent_llm_trading.Prelude.{
  ℕ, ◌≤◌, ◌<◌, ◌≡◌, refl, ◌∙◌, ◌⊎◌, Bool, true, false, Option, none, some, List, [], ◌∷◌, push,
  arith,
}
use multi_agent_llm_trading.Types.{
  OrderState, pending, submitted, accepted, partial, filled, cancelled, rejected, expired,
  OrderEvent, submit, accept, partial_fill, full_fill, cancel, reject, expire, order_state_eq,
  order_event_eq,
}
use multi_agent_llm_trading.Fsm.Laws.{trigger-table}
use multi_agent_llm_trading.Fsm.{Transition, StateMachine, new_machine, find_arc, trigger}

abbrev pub OrderMachine : Type 0
OrderMachine = StateMachine (Unit {0}) OrderState OrderEvent

abbrev arc : OrderState → OrderEvent → OrderState → Transition (Unit {0}) OrderState OrderEvent
arc from ev to = record {
  from_state = from;
  event = ev;
  to_state = to;
  guard = none;
  action = none;
}

abbrev pub order_transitions : List (Transition (Unit {0}) OrderState OrderEvent)
order_transitions =
    arc pending submit submitted
    ∷ arc submitted accept accepted
    ∷ arc accepted partial_fill partial
    ∷ arc accepted full_fill filled
    ∷ arc partial full_fill filled
    ∷ arc partial partial_fill partial
    ∷ arc submitted cancel cancelled
    ∷ arc accepted cancel cancelled
    ∷ arc partial cancel cancelled
    ∷ arc pending reject rejected
    ∷ arc submitted reject rejected
    ∷ arc accepted reject rejected
    ∷ arc accepted expire expired
    ∷ arc partial expire expired
    ∷ []

unfoldable pub build_order_fsm : OrderState → Option OrderMachine
build_order_fsm initial_state = new_machine initial_state order_transitions

-- The machine that it builds.
abbrev pub order_machine : OrderState → OrderMachine
order_machine st = record { state = st; table = order_transitions; history = [] }

-- No two arcs of the order machine share a key: the registration never raises.
pub build_order_fsm_total : (st : OrderState) → build_order_fsm st ≡ some (order_machine st)
unfolding build_order_fsm new_machine find_arc
build_order_fsm_total st = refl

-- The life of an order by state: what each event does there, `none` where it is refused.
pub after_pending : OrderEvent → Option OrderState
after_pending submit = some submitted
after_pending reject = some rejected
after_pending _ = none

pub after_submitted : OrderEvent → Option OrderState
after_submitted accept = some accepted
after_submitted cancel = some cancelled
after_submitted reject = some rejected
after_submitted _ = none

pub after_accepted : OrderEvent → Option OrderState
after_accepted partial_fill = some partial
after_accepted full_fill = some filled
after_accepted cancel = some cancelled
after_accepted reject = some rejected
after_accepted expire = some expired
after_accepted _ = none

pub after_partial : OrderEvent → Option OrderState
after_partial partial_fill = some partial
after_partial full_fill = some filled
after_partial cancel = some cancelled
after_partial expire = some expired
after_partial _ = none

unfoldable pub order_next : OrderState → OrderEvent → Option OrderState
unfolding after_pending after_submitted after_accepted after_partial
order_next pending ev = after_pending ev
order_next submitted ev = after_submitted ev
order_next accepted ev = after_accepted ev
order_next partial ev = after_partial ev
order_next _ ev = none

-- One step of a machine over the order table, by the life of an order.
abbrev pub step_order :
    OrderMachine → OrderEvent → Option OrderState → Bool × OrderMachine × Unit {0}
step_order m ev none = (false, m, tt)
step_order m ev (some st) =
    (true, record m { state = st; history = push m.history (m.state, some ev, st) }, tt)

-- The arc of the life of an order from a state, if there is one.
abbrev listed :
    OrderState
    → OrderEvent
    → Option OrderState
    → Option (Transition (Unit {0}) OrderState OrderEvent)
listed st ev none = none
listed st ev (some to) = some (arc st ev to)

find_arc-order_next :
    (st : OrderState) (ev : OrderEvent)
    → find_arc st ev order_transitions ≡ listed st ev (order_next st ev)
unfolding find_arc order_next
find_arc-order_next st ev = ground arith

-- A machine over the order table does with each event, in each state, what the life of an order says:
-- it moves and records the step, or refuses and stays as it was.
pub trigger-order_next :
    (m : OrderMachine) (ev : OrderEvent)
    → m.table ≡ order_transitions
    → trigger m ev tt ≡ step_order m ev (order_next m.state ev)
unfolding trigger
trigger-order_next m ev h =
    let found : find_arc m.state ev m.table ≡ listed m.state ev (order_next m.state ev) =
      rw h (find_arc-order_next m.state ev) in
    ground arith

-- Filled, cancelled, rejected, expired.
abbrev pub is_terminal : OrderState → Bool
is_terminal filled = true
is_terminal cancelled = true
is_terminal rejected = true
is_terminal expired = true
is_terminal _ = false

-- How far an order has come.
abbrev pub rank : OrderState → ℕ
rank pending = 0
rank submitted = 1
rank accepted = 2
rank partial = 3
rank _ = 4

-- Every step moves the order forward, but for a further partial fill, which leaves it where it is;
-- and no step leaves a terminal state.
pub order_next_forward :
    (st st' : OrderState) (ev : OrderEvent)
    → order_next st ev ≡ some st'
    → ((rank st < rank st') ⊎ ((st ≡ partial) × (ev ≡ partial_fill) × (st' ≡ partial)))
      × (is_terminal st ≡ false)
unfolding order_next
order_next_forward st st' ev h = ground arith

unfoldable pub run_order : OrderMachine → List OrderEvent → OrderMachine
run_order m [] = m
run_order m (ev ∷ evs) = run_order (trigger m ev tt).1 evs

run_order-table :
    (m : OrderMachine) (evs : List OrderEvent)
    → m.table ≡ order_transitions
    → (run_order m evs).table ≡ order_transitions
unfolding run_order
run_order-table m [] h = h
run_order-table m (ev ∷ evs) h = run_order-table (trigger m ev tt).1 evs (trigger-table m ev tt ∙ h)

refused :
    (m : OrderMachine) (ev : OrderEvent)
    → m.table ≡ order_transitions
    → is_terminal m.state ≡ true
    → (trigger m ev tt).1 ≡ m
unfolding order_next
refused m ev h t = rw (trigger-order_next m ev h) (ground arith)

forward :
    (m : OrderMachine) (ev : OrderEvent)
    → m.table ≡ order_transitions
    → rank m.state ≤ rank (trigger m ev tt).1.state
unfolding order_next
forward m ev h = rw (trigger-order_next m ev h) (ground arith)

-- Once terminal, an order stays as it is under every sequence of events, history included.
pub run_order_terminal :
    (m : OrderMachine) (evs : List OrderEvent)
    → m.table ≡ order_transitions
    → is_terminal m.state ≡ true
    → run_order m evs ≡ m
unfolding run_order
run_order_terminal m [] h t = refl
run_order_terminal m (ev ∷ evs) h t =
    let stays : (trigger m ev tt).1 ≡ m = refused m ev h t in
    rw stays (run_order_terminal m evs h t)

-- Whatever the events, the order never falls back.
pub rank-run_order :
    (m : OrderMachine) (evs : List OrderEvent)
    → m.table ≡ order_transitions
    → rank m.state ≤ rank (run_order m evs).state
unfolding run_order
rank-run_order m [] h = omega arith
rank-run_order m (ev ∷ evs) h =
    omega
      (arith, forward m ev h, rank-run_order (trigger m ev tt).1 evs (trigger-table m ev tt ∙ h))
