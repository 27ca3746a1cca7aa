-- ===== src/FakeBroker/Requests.antt =====
-- execution/fake_broker.py: the calls that change FakeBroker, and histories of them.
use multi_agent_llm_trading.Prelude.{ℕ, String, Option, none, List, [], ◌∷◌, ◌≡◌, string_eq}
use multi_agent_llm_trading.Prelude.Dict.{lookup}
use multi_agent_llm_trading.Types.{Order}
use multi_agent_llm_trading.FakeBroker.{
  FillMode, BrokerFailure, FakeBroker, set_fill_mode, set_price, inject_submit_failure,
  inject_cancel_failure, register_event_callback,
}
use multi_agent_llm_trading.FakeBroker.Orders.{
  Draws, submit_order, cancel_order, force_full_fill, force_partial_fill, force_reject,
}

pub data Request : Type 0 where
  submit : Draws → Order → Request
  cancel : (broker_id : String) (now : ℕ) → Request
  full_fill : (client_id : ℕ) (price : Option ℕ) (fill_id now : ℕ) → Request
  partial_fill : (client_id qty : ℕ) (price : Option ℕ) (fill_id now : ℕ) → Request
  reject : (client_id : ℕ) (reason : String) (now : ℕ) → Request
  mode : FillMode → Request
  quote : (symbol : String) (price : ℕ) → Request
  submit_failure cancel_failure : BrokerFailure → Request
  callback : Request

-- The state that a call leaves, whether it returned or raised.
unfoldable pub serve : Request → FakeBroker → FakeBroker
serve (submit draws order) b = (submit_order draws order b).1
serve (cancel broker_id now) b = (cancel_order broker_id now b).1
serve (full_fill client_id price fill_id now) b = (force_full_fill client_id price fill_id now b).1
serve (partial_fill client_id qty price fill_id now) b =
    (force_partial_fill client_id qty price fill_id now b).1
serve (reject client_id reason now) b = (force_reject client_id reason now b).1
serve (mode m) b = set_fill_mode m b
serve (quote symbol p) b = set_price symbol p b
serve (submit_failure error) b = inject_submit_failure error b
serve (cancel_failure error) b = inject_cancel_failure error b
serve callback b = register_event_callback b

unfoldable pub serve_all : List Request → FakeBroker → FakeBroker
serve_all [] b = b
serve_all (r ∷ rs) b = serve_all rs (serve r b)

-- What uuid4 gives: a broker id that no order has.
abbrev pub DrawsFresh : Request → FakeBroker → Type 0
DrawsFresh (submit draws order) b = lookup draws.broker_id b.orders ≡ none
DrawsFresh _ b = Unit

abbrev pub AllDrawFresh : List Request → FakeBroker → Type 0
AllDrawFresh [] b = Unit
AllDrawFresh (r ∷ rs) b = DrawsFresh r b × AllDrawFresh rs (serve r b)
