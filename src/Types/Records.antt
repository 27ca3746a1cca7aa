-- ===== src/Types/Records.antt =====
-- The dataclasses of core/types.py, and the time and decimal units that they are written in.
use multi_agent_llm_trading.Prelude.{
  ℕ, ◌+◌, ◌*◌, ◌/◌, ◌%◌, String, Bool, Option, List, ltb, if◌then◌else◌,
}
use multi_agent_llm_trading.Prelude.Int.{ℤ}
use multi_agent_llm_trading.Types.Enums.{
  AssetClass, AgentId, Sleeve, Action, OrderSide, OrderType, OrderClass, TimeInForce, OrderState,
  DrawdownBucket, VixBucket,
}

-- Decimal("1").
abbrev pub unit : ℕ
unit = 1000000000000000000

-- Decimal division, rounded half to even; Python raises on a zero divisor, which callers test.
unfoldable pub div_half_even : ℕ → ℕ → ℕ
div_half_even a b =
    let q = a / b in
    let r = 2 * (a % b) in if ltb r b then q else if ltb b r then q + 1 else q + q % 2

abbrev pub second_us : ℕ
second_us = 1000000

abbrev pub hour_us : ℕ
hour_us = 3600000000

abbrev pub day_us : ℕ
day_us = 86400000000

-- `ts.date()`
abbrev pub date_of : ℕ → ℕ
date_of ts = ts / day_us

-- One leg of a multi-leg options order.
pub record OptionLeg : Type 0 where
  pub symbol : String
  pub side : OrderSide
  pub ratio_qty : ℕ

-- An agent's proposed position change.
pub record Intent : Type 0 where
  pub id : ℕ
  pub agent_id : AgentId
  pub symbol : String
  pub action : Action
  pub target_weight : ℤ
  pub sleeve : Sleeve
  pub signal : String
  pub conviction : ℤ
  pub rationale : String
  pub timestamp : ℕ
  pub regime_observation : String
  pub requires_approval : Bool
  pub legs : List OptionLeg

pub record Order : Type 0 where
  pub id : ℕ
  pub intent_id : ℕ
  pub agent_id : AgentId
  pub symbol : String
  pub side : OrderSide
  pub qty : ℕ
  pub order_type : OrderType
  pub order_class : OrderClass
  pub time_in_force : TimeInForce
  pub state : OrderState
  pub created_at : ℕ
  pub limit_price : Option ℕ
  pub stop_price : Option ℕ
  pub trail_percent : Option ℕ
  pub broker_order_id : Option String
  pub legs : List OptionLeg
  pub submitted_at : Option ℕ
  pub filled_at : Option ℕ
  pub filled_qty : ℕ
  pub filled_avg_price : Option ℕ
  pub rejection_reason : Option String
  pub is_letf : Bool
  pub letf_entry_date : Option ℕ

pub record Fill : Type 0 where
  pub id : ℕ
  pub order_id : ℕ
  pub agent_id : AgentId
  pub symbol : String
  pub side : OrderSide
  pub qty : ℕ
  pub price : ℕ
  pub timestamp : ℕ
  pub commission : ℕ
  pub is_partial : Bool

-- A current open position; a short one has a negative quantity.
pub record Position : Type 0 where
  pub agent_id : AgentId
  pub symbol : String
  pub qty : ℤ
  pub avg_entry_price : ℕ
  pub current_price : ℕ
  pub asset_class : AssetClass
  pub sleeve : Sleeve
  pub as_of : ℕ

-- A tax lot: one purchase, consumed by sells.
pub record Lot : Type 0 where
  pub id : ℕ
  pub agent_id : AgentId
  pub symbol : String
  pub qty : ℕ
  pub entry_price : ℕ
  pub entry_date : ℕ
  pub entry_fill_id : ℕ
  pub remaining_qty : ℕ
  pub exit_fill_id : Option ℕ
  pub exit_date : Option ℕ
  pub exit_price : Option ℕ
  pub is_closed : Bool

pub record AgentState : Type 0 where
  pub agent_id : AgentId
  pub sleeve_equity : ℤ
  pub sleeve_peak_equity : ℕ
  pub drawdown_bucket : DrawdownBucket
  pub drawdown_bucket_entry_date : Option ℕ
  pub consecutive_losses : ℕ
  pub is_benched : Bool
  pub bench_until : Option ℕ
  pub day_trade_count : ℕ
  pub orders_today : ℕ
  pub last_memo_id : Option ℕ

-- What the planner needs of the market; a missing symbol is `none`.
pub record MarketSnapshot : Type 0 where
  pub current_prices : String → Option ℕ
  pub realized_vol_30d : String → Option ℕ
  pub vix_bucket : VixBucket
  pub timestamp : ℕ
