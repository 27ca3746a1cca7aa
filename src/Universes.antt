-- ===== src/Universes.antt =====
-- config/universes.py: the liquidity tiers of the symbols and the slippage estimated for each.
use multi_agent_llm_trading.Prelude.{ℕ, ◌*◌, String, Option, none, some, [], ◌∷◌, string_eq}
use multi_agent_llm_trading.Prelude.Dict.{Dict, lookup}
use multi_agent_llm_trading.Types.{unit}

pub data LiquidityTier : Type 0 where
  mega large mid small letf crypto : LiquidityTier

-- SLIPPAGE_BPS_BY_TIER
abbrev pub slippage_bps_by_tier : LiquidityTier → ℕ
slippage_bps_by_tier mega = 2 * unit
slippage_bps_by_tier large = 4 * unit
slippage_bps_by_tier mid = 8 * unit
slippage_bps_by_tier small = 18 * unit
slippage_bps_by_tier letf = 6 * unit
slippage_bps_by_tier crypto = 8 * unit

-- `_SYMBOL_TIER`
pub symbol_tier : Dict String LiquidityTier
symbol_tier =
    ("SPY", mega)
    ∷ ("QQQ", mega)
    ∷ ("IWM", large)
    ∷ ("EFA", large)
    ∷ ("EEM", large)
    ∷ ("TLT", large)
    ∷ ("IEF", large)
    ∷ ("GLD", large)
    ∷ ("USO", large)
    ∷ ("VNQ", large)
    ∷ ("TQQQ", letf)
    ∷ ("SQQQ", letf)
    ∷ ("UPRO", letf)
    ∷ ("SOXL", letf)
    ∷ ("BTCUSD", crypto)
    ∷ ("ETHUSD", crypto)
    ∷ ("SOLUSD", crypto)
    ∷ ("AAPL", mega)
    ∷ ("NVDA", mega)
    ∷ ("MSFT", mega)
    ∷ ("GOOGL", mega)
    ∷ ("AMZN", mega)
    ∷ ("META", mega)
    ∷ ("AVGO", large)
    ∷ ("ORCL", large)
    ∷ ("CRM", large)
    ∷ ("ADBE", large)
    ∷ ("JPM", large)
    ∷ ("BAC", large)
    ∷ ("GS", large)
    ∷ ("MS", large)
    ∷ ("BLK", large)
    ∷ ("V", large)
    ∷ ("MA", large)
    ∷ ("AXP", large)
    ∷ ("SCHW", large)
    ∷ ("UNH", large)
    ∷ ("JNJ", large)
    ∷ ("LLY", large)
    ∷ ("PFE", large)
    ∷ ("ABBV", large)
    ∷ ("TMO", large)
    ∷ ("MRK", large)
    ∷ ("DHR", large)
    ∷ ("ISRG", large)
    ∷ ("TSLA", large)
    ∷ ("HD", large)
    ∷ ("MCD", large)
    ∷ ("NKE", large)
    ∷ ("LOW", large)
    ∷ ("SBUX", large)
    ∷ ("BKNG", large)
    ∷ ("WMT", large)
    ∷ ("COST", large)
    ∷ ("PG", large)
    ∷ ("KO", large)
    ∷ ("PEP", large)
    ∷ ("XOM", large)
    ∷ ("CVX", large)
    ∷ ("COP", large)
    ∷ ("EOG", large)
    ∷ ("GE", large)
    ∷ ("BA", large)
    ∷ ("CAT", large)
    ∷ ("HON", large)
    ∷ ("UPS", large)
    ∷ ("RTX", large)
    ∷ ("NFLX", large)
    ∷ ("DIS", large)
    ∷ ("VZ", large)
    ∷ ("CMCSA", large)
    ∷ ("NEE", large)
    ∷ ("LIN", large)
    ∷ ("PLD", large)
    ∷ ("AMT", large)
    ∷ ("DDOG", mid)
    ∷ ("NET", mid)
    ∷ ("CRWD", mid)
    ∷ ("SNOW", mid)
    ∷ ("MDB", mid)
    ∷ ("PLTR", mid)
    ∷ ("SHOP", mid)
    ∷ ("COIN", mid)
    ∷ ("RBLX", small)
    ∷ ("HIMS", small)
    ∷ ("CELH", small)
    ∷ ("SOFI", small)
    ∷ ("AFRM", small)
    ∷ ("RIVN", small)
    ∷ ("PINS", small)
    ∷ []

abbrev tier_or_large : Option LiquidityTier → LiquidityTier
tier_or_large none = large
tier_or_large (some tier) = tier

unfoldable pub liquidity_tier : String → LiquidityTier
unfolding symbol_tier
liquidity_tier symbol = tier_or_large (lookup symbol symbol_tier)

unfoldable pub estimated_slippage_bps : String → ℕ
unfolding liquidity_tier
estimated_slippage_bps symbol = slippage_bps_by_tier (liquidity_tier symbol)
