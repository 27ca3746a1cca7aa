-- ===== src/Lots/Examples.antt =====
-- The lot ledger at concrete fills.
use multi_agent_llm_trading.Prelude.{
  ℕ, ◌+◌, ◌≤◌, ◌<◌, ◌≡◌, refl, true, false, string_eq, none, some, List, [], ◌∷◌,
}
use multi_agent_llm_trading.Types.{
  AgentId, agent_id_eq, OrderSide, Fill, LotMethod, normalize_symbol, Lot,
}
use multi_agent_llm_trading.Oms.Vocabulary.{LoggedEvent, fill_received, order_expired}
use multi_agent_llm_trading.Lots.{
  LotLedger, book_fill, close_lots, total_open_qty, member, lot_of_fill,
}
use multi_agent_llm_trading.Lots.Consume.{IsDust}
use multi_agent_llm_trading.Lots.Ledger.{IsKeyed}
use multi_agent_llm_trading.Lots.Close.{close_lots-total_open_qty}
use multi_agent_llm_trading.Lots.Replay.{replay_from_oms_store, replay_from_oms_store_twice}
use multi_agent_llm_trading.Lots.Booking.{book_fill_idempotent, book_fill-sell}

abbrev buy : Fill
buy = record {
  id = 1;
  order_id = 2;
  agent_id = AgentId.haiku;
  symbol = "BTC/USD";
  side = OrderSide.buy;
  qty = 5000000000000000000;
  price = 100000000000000000000;
  timestamp = 86400000000;
  commission = 0;
  is_partial = false;
}

abbrev sell : Fill
sell = record buy { id = 3; symbol = "BTCUSD"; side = OrderSide.sell; qty = 2000000000000000000 }

abbrev nothing : LotLedger
nothing = record { lots = []; booked = []; db = none }

abbrev held : LotLedger
held = record { lots = (9, lot_of_fill 9 buy) ∷ []; booked = 1 ∷ []; db = none }

held-IsKeyed : IsKeyed held.lots
held-IsKeyed = (refl, tt, tt)

-- What a sale of two out of five leaves.
abbrev sold : List Lot × LotLedger
sold =
    let left = record (lot_of_fill 9 buy) { remaining_qty = 3000000000000000000 } in
    (left ∷ [], record { lots = (9, left) ∷ []; booked = 1 ∷ []; db = none })

sold_eq : close_lots AgentId.haiku "BTCUSD" 2000000000000000000 sell LotMethod.fifo held ≡ some sold
unfolding close_lots normalize_symbol
sold_eq = refl

close_lots-total_open_qty_example :
    (dust : ℕ) × (total_open_qty AgentId.haiku "BTCUSD" held
      ≡ 2000000000000000000 + total_open_qty AgentId.haiku "BTCUSD" sold.1 + dust)
    × IsDust sell.price dust
close_lots-total_open_qty_example =
    close_lots-total_open_qty AgentId.haiku "BTCUSD" 2000000000000000000 sell LotMethod.fifo held
      sold.0 sold.1 held-IsKeyed sold_eq

book_fill_idempotent_example :
    book_fill buy LotMethod.lifo 8 (book_fill buy LotMethod.fifo 9 nothing)
    ≡ book_fill buy LotMethod.fifo 9 nothing
book_fill_idempotent_example = book_fill_idempotent buy LotMethod.fifo LotMethod.lifo 9 8 nothing

book_fill-sell_example :
    let l' = book_fill sell LotMethod.fifo 10 held in
    let open_qty = total_open_qty AgentId.haiku "BTCUSD" held in
    (member 3 l'.booked ≡ true)
    × (open_qty < sell.qty → l'.lots ≡ held.lots)
    × (sell.qty ≤ open_qty
        → (dust : ℕ) × (open_qty ≡ sell.qty + total_open_qty AgentId.haiku "BTCUSD" l' + dust)
          × IsDust sell.price dust)
book_fill-sell_example = book_fill-sell sell LotMethod.fifo 10 held held-IsKeyed refl refl

btc_symbol : normalize_symbol "BTCUSD" ≡ "BTCUSD"
unfolding normalize_symbol
btc_symbol = refl

-- A log with the purchase, and with an order that expires.
abbrev log : List LoggedEvent
log =
    record { ts = 5; kind = fill_received buy; order_id = 2 }
    ∷ record { ts = 6; kind = order_expired; order_id = 7 }
    ∷ []

replay_from_oms_store_twice_example :
    let l' = (replay_from_oms_store (λ n. n) log nothing).1 in
    replay_from_oms_store (λ n. n + 1) log l' ≡ (0, l')
replay_from_oms_store_twice_example = replay_from_oms_store_twice (λ n. n) (λ n. n + 1) log nothing
