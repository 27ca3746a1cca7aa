-- ===== src/Types/Enums.antt =====
-- The enumerations of core/types.py, each with its `==`.
use Prim.Native.Nat.{ℕ}
use mathlib.Core.Path.{◌≡◌}
use native.Mathlib.Omega.{arith}
use multi_agent_llm_trading.Prelude.{Eq, by_code}

pub data AgentId : Type 0 where
  haiku sonnet opus manager : AgentId

abbrev pub agent_id_code : AgentId → ℕ
agent_id_code AgentId.haiku = 0
agent_id_code AgentId.sonnet = 1
agent_id_code AgentId.opus = 2
agent_id_code AgentId.manager = 3

pub agent_id_code-inj : (a b : AgentId) → agent_id_code a ≡ agent_id_code b → a ≡ b
agent_id_code-inj a b h = ground arith

instance abbrev pub agent_id_eq : Eq AgentId
agent_id_eq = by_code agent_id_code agent_id_code-inj

pub data Sleeve : Type 0 where
  equity crypto options : Sleeve

abbrev pub sleeve_code : Sleeve → ℕ
sleeve_code Sleeve.equity = 0
sleeve_code Sleeve.crypto = 1
sleeve_code Sleeve.options = 2

pub sleeve_code-inj : (a b : Sleeve) → sleeve_code a ≡ sleeve_code b → a ≡ b
sleeve_code-inj a b h = ground arith

instance abbrev pub sleeve_eq : Eq Sleeve
sleeve_eq = by_code sleeve_code sleeve_code-inj

pub data Action : Type 0 where
  buy sell rebalance_to close : Action

abbrev pub action_code : Action → ℕ
action_code Action.buy = 0
action_code Action.sell = 1
action_code Action.rebalance_to = 2
action_code Action.close = 3

pub action_code-inj : (a b : Action) → action_code a ≡ action_code b → a ≡ b
action_code-inj a b h = ground arith

instance abbrev pub action_eq : Eq Action
action_eq = by_code action_code action_code-inj

pub data OrderSide : Type 0 where
  buy sell : OrderSide

abbrev pub order_side_code : OrderSide → ℕ
order_side_code OrderSide.buy = 0
order_side_code OrderSide.sell = 1

pub order_side_code-inj : (a b : OrderSide) → order_side_code a ≡ order_side_code b → a ≡ b
order_side_code-inj a b h = ground arith

instance abbrev pub order_side_eq : Eq OrderSide
order_side_eq = by_code order_side_code order_side_code-inj

pub data OrderType : Type 0 where
  market limit stop stop_limit trailing_stop : OrderType

abbrev pub order_type_code : OrderType → ℕ
order_type_code OrderType.market = 0
order_type_code OrderType.limit = 1
order_type_code OrderType.stop = 2
order_type_code OrderType.stop_limit = 3
order_type_code OrderType.trailing_stop = 4

pub order_type_code-inj : (a b : OrderType) → order_type_code a ≡ order_type_code b → a ≡ b
order_type_code-inj a b h = ground arith

instance abbrev pub order_type_eq : Eq OrderType
order_type_eq = by_code order_type_code order_type_code-inj

pub data OrderClass : Type 0 where
  simple bracket oco oto mleg : OrderClass

abbrev pub order_class_code : OrderClass → ℕ
order_class_code OrderClass.simple = 0
order_class_code OrderClass.bracket = 1
order_class_code OrderClass.oco = 2
order_class_code OrderClass.oto = 3
order_class_code OrderClass.mleg = 4

pub order_class_code-inj : (a b : OrderClass) → order_class_code a ≡ order_class_code b → a ≡ b
order_class_code-inj a b h = ground arith

instance abbrev pub order_class_eq : Eq OrderClass
order_class_eq = by_code order_class_code order_class_code-inj

pub data TimeInForce : Type 0 where
  day gtc opg cls ioc fok : TimeInForce

abbrev pub time_in_force_code : TimeInForce → ℕ
time_in_force_code TimeInForce.day = 0
time_in_force_code TimeInForce.gtc = 1
time_in_force_code TimeInForce.opg = 2
time_in_force_code TimeInForce.cls = 3
time_in_force_code TimeInForce.ioc = 4
time_in_force_code TimeInForce.fok = 5

pub time_in_force_code-inj :
    (a b : TimeInForce) → time_in_force_code a ≡ time_in_force_code b → a ≡ b
time_in_force_code-inj a b h = ground arith

instance abbrev pub time_in_force_eq : Eq TimeInForce
time_in_force_eq = by_code time_in_force_code time_in_force_code-inj

pub data OrderState : Type 0 where
  pending submitted accepted partial filled cancelled rejected expired : OrderState

abbrev pub order_state_code : OrderState → ℕ
order_state_code OrderState.pending = 0
order_state_code OrderState.submitted = 1
order_state_code OrderState.accepted = 2
order_state_code OrderState.partial = 3
order_state_code OrderState.filled = 4
order_state_code OrderState.cancelled = 5
order_state_code OrderState.rejected = 6
order_state_code OrderState.expired = 7

pub order_state_code-inj : (a b : OrderState) → order_state_code a ≡ order_state_code b → a ≡ b
order_state_code-inj a b h = ground arith

instance abbrev pub order_state_eq : Eq OrderState
order_state_eq = by_code order_state_code order_state_code-inj

pub data OrderEvent : Type 0 where
  submit accept partial_fill full_fill cancel reject expire : OrderEvent

abbrev pub order_event_code : OrderEvent → ℕ
order_event_code OrderEvent.submit = 0
order_event_code OrderEvent.accept = 1
order_event_code OrderEvent.partial_fill = 2
order_event_code OrderEvent.full_fill = 3
order_event_code OrderEvent.cancel = 4
order_event_code OrderEvent.reject = 5
order_event_code OrderEvent.expire = 6

pub order_event_code-inj : (a b : OrderEvent) → order_event_code a ≡ order_event_code b → a ≡ b
order_event_code-inj a b h = ground arith

instance abbrev pub order_event_eq : Eq OrderEvent
order_event_eq = by_code order_event_code order_event_code-inj

pub data KillSwitchState : Type 0 where
  ok daily_loss drawdown_halved drawdown_paused drawdown_liquidate reconciliation_break
        heartbeat_missed budget_exhausted :
      KillSwitchState

abbrev pub kill_switch_state_code : KillSwitchState → ℕ
kill_switch_state_code KillSwitchState.ok = 0
kill_switch_state_code KillSwitchState.daily_loss = 1
kill_switch_state_code KillSwitchState.drawdown_halved = 2
kill_switch_state_code KillSwitchState.drawdown_paused = 3
kill_switch_state_code KillSwitchState.drawdown_liquidate = 4
kill_switch_state_code KillSwitchState.reconciliation_break = 5
kill_switch_state_code KillSwitchState.heartbeat_missed = 6
kill_switch_state_code KillSwitchState.budget_exhausted = 7

pub kill_switch_state_code-inj :
    (a b : KillSwitchState) → kill_switch_state_code a ≡ kill_switch_state_code b → a ≡ b
kill_switch_state_code-inj a b h = ground arith

instance abbrev pub kill_switch_state_eq : Eq KillSwitchState
kill_switch_state_eq = by_code kill_switch_state_code kill_switch_state_code-inj

pub data DrawdownBucket : Type 0 where
  normal yellow orange red forced_cash : DrawdownBucket

abbrev pub drawdown_bucket_code : DrawdownBucket → ℕ
drawdown_bucket_code DrawdownBucket.normal = 0
drawdown_bucket_code DrawdownBucket.yellow = 1
drawdown_bucket_code DrawdownBucket.orange = 2
drawdown_bucket_code DrawdownBucket.red = 3
drawdown_bucket_code DrawdownBucket.forced_cash = 4

pub drawdown_bucket_code-inj :
    (a b : DrawdownBucket) → drawdown_bucket_code a ≡ drawdown_bucket_code b → a ≡ b
drawdown_bucket_code-inj a b h = ground arith

instance abbrev pub drawdown_bucket_eq : Eq DrawdownBucket
drawdown_bucket_eq = by_code drawdown_bucket_code drawdown_bucket_code-inj

pub data VixBucket : Type 0 where
  very_low sweet_spot elevated stress crisis : VixBucket

abbrev pub vix_bucket_code : VixBucket → ℕ
vix_bucket_code VixBucket.very_low = 0
vix_bucket_code VixBucket.sweet_spot = 1
vix_bucket_code VixBucket.elevated = 2
vix_bucket_code VixBucket.stress = 3
vix_bucket_code VixBucket.crisis = 4

pub vix_bucket_code-inj : (a b : VixBucket) → vix_bucket_code a ≡ vix_bucket_code b → a ≡ b
vix_bucket_code-inj a b h = ground arith

instance abbrev pub vix_bucket_eq : Eq VixBucket
vix_bucket_eq = by_code vix_bucket_code vix_bucket_code-inj

pub data LotMethod : Type 0 where
  fifo lifo : LotMethod

abbrev pub lot_method_code : LotMethod → ℕ
lot_method_code LotMethod.fifo = 0
lot_method_code LotMethod.lifo = 1

pub lot_method_code-inj : (a b : LotMethod) → lot_method_code a ≡ lot_method_code b → a ≡ b
lot_method_code-inj a b h = ground arith

instance abbrev pub lot_method_eq : Eq LotMethod
lot_method_eq = by_code lot_method_code lot_method_code-inj

pub data AssetClass : Type 0 where
  equity etf crypto option : AssetClass
