-- ===== src/Lots.antt =====
-- execution/lots.py: the tax lot ledger.
--
-- `lots` is the dict `_lots` in insertion order, `booked` the set `_booked`; `db` is the optional
-- SQLite file, with its two tables. A UUID that the source draws by `new_id` is an argument.
pub mod Consume
pub mod Sorting
pub mod Ledger
pub mod Positions
pub mod Close
pub mod Booking
pub mod Replay
pub mod Aggregate
mod Examples
use multi_agent_llm_trading.Prelude.{
  ℕ, ◌+◌, ◌-◌, ◌*◌, min, Bool, true, false, not, ◌&&◌, ◌||◌, String, Option, none, some, List, [],
  ◌∷◌, map, keep, push, nat_eq, string_eq, ◌==◌, ltb, leb, eqb, if◌then◌else◌,
}
use multi_agent_llm_trading.Prelude.Dict.{Dict, insert}
use multi_agent_llm_trading.Types.{
  AgentId, agent_id_eq, OrderSide, order_side_eq, LotMethod, Fill, Lot, normalize_symbol, date_of,
}

-- DUST_NOTIONAL_USD, in units of 10^-36, those of a product: 0.01.
abbrev pub dust_notional_usd : ℕ
dust_notional_usd = 10000000000000000000000000000000000

-- The tables `lots` and `booked_fills`.
pub record LotTables : Type 0 where
  pub lots : Dict ℕ Lot
  pub booked_fills : Dict ℕ OrderSide

pub record LotLedger : Type 0 where
  pub lots : Dict ℕ Lot
  pub booked : List ℕ
  pub db : Option LotTables

-- `Lot.__post_init__`: the remaining quantity defaults to the quantity.
abbrev pub post_init : Lot → Lot
post_init lot =
    if eqb lot.remaining_qty 0 && not lot.is_closed
    then record lot { remaining_qty = lot.qty }
    else lot

-- `_persist_lot`: INSERT OR REPLACE drops the rows with the same id or the same entry fill, both of
-- which are unique, and writes the new row last.
abbrev pub persist_lot : Lot → Option LotTables → Option LotTables
persist_lot lot none = none
persist_lot lot (some t) = some (record t {
  lots =
      push (keep (λ e. not (e.0 == lot.id || e.1.entry_fill_id == lot.entry_fill_id)) t.lots)
        (lot.id, lot);
})

-- `fill_id in self._booked`
abbrev pub member : ℕ → List ℕ → Bool
member x [] = false
member x (y ∷ ys) = if x == y then true else member x ys

-- `_persist_booked`: INSERT OR IGNORE.
abbrev pub persist_booked : ℕ → OrderSide → Option LotTables → Option LotTables
persist_booked fill_id side none = none
persist_booked fill_id side (some t) =
    if member fill_id (map (λ e. e.0) t.booked_fills)
    then some t
    else some (record t { booked_fills = push t.booked_fills (fill_id, side) })

-- `_load_from_db`, on a fresh ledger.
unfoldable pub load_from_db : LotTables → LotLedger
load_from_db t = record {
  lots = map (λ e. (e.0, post_init e.1)) t.lots;
  booked = map (λ e. e.0) t.booked_fills;
  db = some t;
}

abbrev pub is_empty : LotLedger → Bool
is_empty l = elim l.booked [ [] ↦ true | _ ∷ _ ↦ false ]

abbrev pub values : Dict ℕ Lot → List Lot
values = map (λ e. e.1)

-- The lot that a BUY fill opens.
abbrev pub lot_of_fill : ℕ → Fill → Lot
lot_of_fill lot_id fill = post_init (record {
  id = lot_id;
  agent_id = fill.agent_id;
  symbol = normalize_symbol fill.symbol;
  qty = fill.qty;
  entry_price = fill.price;
  entry_date = date_of fill.timestamp;
  entry_fill_id = fill.id;
  remaining_qty = 0;
  exit_fill_id = none;
  exit_date = none;
  exit_price = none;
  is_closed = false;
})

-- `none` is the ValueError for a fill that is no BUY.
unfoldable pub open_lot : ℕ → Fill → LotLedger → Option LotLedger
open_lot lot_id fill l =
    let lot = lot_of_fill lot_id fill in
    if fill.side == OrderSide.buy
    then some (record l { lots = insert lot.id lot l.lots; db = persist_lot lot l.db })
    else none

abbrev pub is_open_for : AgentId → String → Lot → Bool
is_open_for agent_id symbol lot =
    lot.agent_id == agent_id && (lot.symbol == symbol && not lot.is_closed)

abbrev pub is_candidate : AgentId → String → Lot → Bool
is_candidate agent_id symbol lot = is_open_for agent_id symbol lot && ltb 0 lot.remaining_qty

-- `list.sort` is stable, also with `reverse`: an item goes before the first that may follow it.
abbrev pub may_precede : LotMethod → Lot → Lot → Bool
may_precede LotMethod.fifo a b = leb a.entry_date b.entry_date
may_precede LotMethod.lifo a b = leb b.entry_date a.entry_date

pub insert_sorted : LotMethod → Lot → List Lot → List Lot
insert_sorted method x [] = x ∷ []
insert_sorted method x (y ∷ ys) =
    if may_precede method x y then x ∷ y ∷ ys else y ∷ insert_sorted method x ys

pub sort_lots : LotMethod → List Lot → List Lot
sort_lots method [] = []
sort_lots method (x ∷ xs) = insert_sorted method x (sort_lots method xs)

pub sum_remaining : List Lot → ℕ
sum_remaining [] = 0
sum_remaining (lot ∷ lots) = lot.remaining_qty + sum_remaining lots

-- What is left of a lot: a sliver worth less than a cent at the exit price is snapped to zero.
abbrev pub snap_dust : ℕ → ℕ → ℕ
snap_dust price left =
    if ltb 0 left && (ltb 0 price && ltb (left * price) dust_notional_usd) then 0 else left

-- One round of the loop, on one lot.
abbrev pub consume_lot : Fill → ℕ → Lot → Lot
consume_lot exit_fill wanted lot =
    let new_remaining =
      snap_dust exit_fill.price (lot.remaining_qty - min lot.remaining_qty wanted) in
    let closed = eqb new_remaining 0 in
    post_init (record lot {
      remaining_qty = new_remaining;
      is_closed = closed;
      exit_fill_id = if closed then some exit_fill.id else lot.exit_fill_id;
      exit_date = if closed then some (date_of exit_fill.timestamp) else lot.exit_date;
      exit_price = if closed then some exit_fill.price else lot.exit_price;
    })

-- The loop over the candidates: the updated lots. It ends when nothing is left to close.
pub consume : Fill → ℕ → List Lot → List Lot
consume exit_fill wanted [] = []
consume exit_fill wanted (lot ∷ lots) =
    let rest = consume exit_fill (wanted - min lot.remaining_qty wanted) lots in
    if eqb wanted 0 then [] else consume_lot exit_fill wanted lot ∷ rest

-- `self._lots[lot.id] = updated`, for each.
pub store_lots : List Lot → Dict ℕ Lot → Dict ℕ Lot
store_lots [] d = d
store_lots (lot ∷ lots) d = store_lots lots (insert lot.id lot d)

pub persist_lots : List Lot → Option LotTables → Option LotTables
persist_lots [] db = db
persist_lots (lot ∷ lots) db = persist_lots lots (persist_lot lot db)

-- The candidates of a sale, in the order in which they are consumed.
unfoldable pub candidates : AgentId → String → LotMethod → LotLedger → List Lot
unfolding sort_lots insert_sorted
candidates agent_id symbol method l =
    sort_lots method (keep (is_candidate agent_id symbol) (values l.lots))

-- `none` is a ValueError: the fill is no SELL, or the open quantity is short.
unfoldable pub close_lots :
    AgentId → String → ℕ → Fill → LotMethod → LotLedger → Option (List Lot × LotLedger)
unfolding candidates sum_remaining consume store_lots persist_lots
close_lots agent_id symbol qty exit_fill method l =
    let cands = candidates agent_id (normalize_symbol symbol) method l in
    let affected = consume exit_fill qty cands in
    let l' = record l { lots = store_lots affected l.lots; db = persist_lots affected l.db } in
    if not (exit_fill.side == OrderSide.sell)
    then none
    else if ltb (sum_remaining cands) qty
    then none
    else some (affected, l')

-- What `book_fill` does past the test for a duplicate; a ValueError of a sale is swallowed.
abbrev book_new : Fill → LotMethod → ℕ → LotLedger → LotLedger
book_new fill method lot_id l =
    if fill.side == OrderSide.buy
    then elim (open_lot lot_id fill l) [ none ↦ l | some l' ↦ l' ]
    else elim (close_lots fill.agent_id fill.symbol fill.qty fill method l) [
      | none ↦ l
      | some (_, l') ↦ l'
    ]

unfoldable pub book_fill : Fill → LotMethod → ℕ → LotLedger → LotLedger
book_fill fill method lot_id l =
    let marked = record l {
      booked = push l.booked fill.id;
      db = persist_booked fill.id fill.side l.db;
    } in
    if member fill.id l.booked then l else book_new fill method lot_id marked

unfoldable pub open_lots : AgentId → String → LotLedger → List Lot
open_lots agent_id symbol l = keep (is_open_for agent_id (normalize_symbol symbol)) (values l.lots)

unfoldable pub total_open_qty : AgentId → String → LotLedger → ℕ
unfolding open_lots sum_remaining
total_open_qty agent_id symbol l = sum_remaining (open_lots agent_id symbol l)

abbrev exited_by : ℕ → Option ℕ → Bool
exited_by fill_id none = false
exited_by fill_id (some f) = f == fill_id

unfoldable pub lots_by_exit_fill : ℕ → LotLedger → List Lot
lots_by_exit_fill fill_id l = keep (λ lot. exited_by fill_id lot.exit_fill_id) (values l.lots)
