-- ===== src/Oms/State.antt =====
-- The state of the OMS, its errors, and the shape of a call.
use multi_agent_llm_trading.Prelude.{
  ℕ, ◌+◌, ◌-◌, ◌*◌, String, Bool, Option, none, some, List, [], ◌∷◌, ◌++◌, push, nat_eq, string_eq,
  ltb, eqb, if◌then◌else◌,
}
use multi_agent_llm_trading.Prelude.Dict.{Dict, lookup, insert}
use multi_agent_llm_trading.Types.{
  OrderEvent, order_state_eq, order_event_eq, Order, Fill, div_half_even,
}
use multi_agent_llm_trading.Fsm.{trigger}
use multi_agent_llm_trading.Fsm.OrderFsm.{OrderMachine}
use multi_agent_llm_trading.Oms.Vocabulary.{LoggedEvent, EventKind, BusEvent, order_state_changed}

pub record Entry : Type 0 where
  pub order : Order
  pub fsm : OrderMachine
  pub fills : List Fill

pub record Oms : Type 0 where
  pub entries : Dict ℕ Entry
  pub broker_id_to_order : Dict String ℕ
  pub store : List LoggedEvent
  pub bus : List BusEvent

-- The exceptions: a missing key, a wrong argument, a division by zero, the broker's own.
pub data OmsError : Type 0 where
  key_error value_error division_error broker_unavailable broker_error : OmsError

pub data Result (A : Type 0) : Type 0 where
  ok : A → Result A
  raised : OmsError → Result A

-- What a call returns or raises, and the state that it leaves; what was written before a raise stays.
abbrev pub Outcome : Type 0 → Type 0
Outcome A = Result A × Oms

-- `self._store.append(kind=…, order_id=…, payload=…, ts=…)`
abbrev pub append_log : ℕ → EventKind → ℕ → Oms → Oms
append_log order_id kind ts o = record o {
  store = push o.store (record { ts = ts; kind = kind; order_id = order_id });
}

abbrev pub publish : List BusEvent → Oms → Oms
publish events o = record o { bus = o.bus ++ events }

abbrev pub put_entry : ℕ → Entry → Oms → Oms
put_entry order_id e o = record o { entries = insert order_id e o.entries }

-- A read of `self._orders[order_id]` and its like: KeyError if there is none.
abbrev pub with_entry : {A : Type 0} → ℕ → (Entry → Outcome A) → Oms → Outcome A
with_entry order_id f o = elim (lookup order_id o.entries) [
  | none ↦ (raised key_error, o)
  | some e ↦ f e
]

-- `_FILL_QTY_TOLERANCE`: 1e-9.
abbrev pub fill_qty_tolerance : ℕ
fill_qty_tolerance = 1000000000

-- An overfill leaves a negative residual, below the tolerance as 0 is.
abbrev pub is_fully_filled : ℕ → ℕ → Bool
is_fully_filled order_qty filled_qty = ltb (order_qty - filled_qty) fill_qty_tolerance

-- The average price after a fill; `none` is the division by zero.
abbrev pub new_average : Option ℕ → ℕ → Fill → Option ℕ
new_average none filled_qty fill = some fill.price
new_average (some avg) filled_qty fill =
    let total = avg * filled_qty + fill.price * fill.qty in
    if eqb (filled_qty + fill.qty) 0
    then none
    else some (div_half_even total (filled_qty + fill.qty))

-- `_transition` on an entry: the machine and the order's state move together, or neither does.
unfoldable pub transition_entry : ℕ → OrderEvent → ℕ → Entry → Entry × List BusEvent
transition_entry order_id event ts e =
    let (fired, fsm, _) = trigger e.fsm event tt in
    if fired
    then (
      record e { fsm = fsm; order = record e.order { state = fsm.state } },
      order_state_changed order_id e.fsm.state fsm.state ts ∷ [],
    )
    else (e, [])
