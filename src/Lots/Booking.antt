-- ===== src/Lots/Booking.antt =====
-- `book_fill`: idempotent booking of fills, and the invariant that it keeps.
use multi_agent_llm_trading.Prelude.{
  ℕ, ◌+◌, ◌≤◌, ◌<◌, ◌≡◌, ◌≢◌, refl, ◌⊎◌, inl, inr, true, false, ◌&&◌, String, Option, none, some,
  List, [], ◌∷◌, push, arith, All, Bool-cases, Option-cases, nat_eq, string_eq, if◌then◌else◌, ap,
  ◌==◌, beq_refl,
}
use multi_agent_llm_trading.Prelude.Dict.{Dict, lookup, insert}
use multi_agent_llm_trading.Types.{
  AgentId, agent_id_eq, Fill, Lot, LotMethod, OrderSide, order_side_eq, normalize_symbol,
}
use multi_agent_llm_trading.Lots.{
  LotLedger, values, member, lot_of_fill, open_lot, store_lots, close_lots, book_fill,
  persist_booked, total_open_qty,
}
use multi_agent_llm_trading.Lots.Consume.{IsDust}
use multi_agent_llm_trading.Lots.Ledger.{IsKeyed, total, open_weight, total-insert_new}
use multi_agent_llm_trading.Lots.Close.{
  close_lots-some, close_lots-none_iff, close_lots-total_open_qty,
}
use multi_agent_llm_trading.Lots.Positions.{total_open_qty-total}

member-push : (x : ℕ) (xs : List ℕ) → member x (push xs x) ≡ true
member-push x [] = ground (arith, beq_refl x)
member-push x (y ∷ ys) = ground (arith, member-push x ys)

book_fill-booked :
    (f : Fill) (m : LotMethod) (id : ℕ) (l : LotLedger)
    → member f.id (book_fill f m id l).booked ≡ true
unfolding book_fill open_lot close_lots
book_fill-booked f m id l = ground (arith, member-push f.id l.booked)

-- A fill that is delivered again changes nothing, by whatever method and new id.
pub book_fill_idempotent :
    (f : Fill) (m m' : LotMethod) (id id' : ℕ) (l : LotLedger)
    → book_fill f m' id' (book_fill f m id l) ≡ book_fill f m id l
unfolding book_fill
book_fill_idempotent f m m' id id' l = rw (book_fill-booked f m id l, book_fill) refl

All-values-insert :
    (P : Lot → Type 0) (k : ℕ) (v : Lot) (d : Dict ℕ Lot)
    → P v
    → All P (values d)
    → All P (values (insert k v d))
All-values-insert P k v [] pv h = (pv, tt)
All-values-insert P k v ((j, x) ∷ d) pv h = elim (Bool-cases (k == j)) [
  | inl here ↦ rw here (pv, h.1)
  | inr later ↦ rw later (h.0, All-values-insert P k v d pv h.1)
]

insert-IsKeyed : (v : Lot) (d : Dict ℕ Lot) → IsKeyed d → IsKeyed (insert v.id v d)
insert-IsKeyed v [] h = (refl, tt, tt)
insert-IsKeyed v ((j, x) ∷ d) h = elim (Bool-cases (v.id == j)) [
  | inl here ↦
      let same : x.id ≡ v.id = ground (arith, h.0) in
      rw here (ground (arith, h.0), rw same at h.1, h.2)
  | inr later ↦ rw later (
    h.0,
    All-values-insert (λ y. y.id ≢ x.id) v.id v d (ground (arith, h.0)) h.1,
    insert-IsKeyed v d h.2,
  )
]

store_lots-IsKeyed : (lots : List Lot) (d : Dict ℕ Lot) → IsKeyed d → IsKeyed (store_lots lots d)
unfolding store_lots
store_lots-IsKeyed [] d h = h
store_lots-IsKeyed (lot ∷ lots) d h =
    store_lots-IsKeyed lots (insert lot.id lot d) (insert-IsKeyed lot d h)

-- The ledger that a new fill is booked on.
abbrev marked : Fill → LotLedger → LotLedger
marked f l = record l { booked = push l.booked f.id; db = persist_booked f.id f.side l.db }

module _ (f : Fill) (m : LotMethod) (id : ℕ) (l : LotLedger)
    (fresh : member f.id l.booked ≡ false) where
  book_fill-buy_lots :
      f.side ≡ OrderSide.buy → (book_fill f m id l).lots ≡ insert id (lot_of_fill id f) l.lots
  unfolding book_fill open_lot
  book_fill-buy_lots buy = ground arith

  book_fill-short :
      f.side ≡ OrderSide.sell
      → close_lots f.agent_id f.symbol f.qty f m (marked f l) ≡ none
      → (book_fill f m id l).lots ≡ l.lots
  unfolding book_fill
  book_fill-short sell short = ground arith

  book_fill-sold :
      (affected : List Lot) (l' : LotLedger)
      → f.side ≡ OrderSide.sell
      → close_lots f.agent_id f.symbol f.qty f m (marked f l) ≡ some (affected, l')
      → book_fill f m id l ≡ l'
  unfolding book_fill
  book_fill-sold affected l' sell sold = ground arith

lot_of_fill_id : (id : ℕ) (f : Fill) → (lot_of_fill id f).id ≡ id
lot_of_fill_id id f = ground arith

book_new-IsKeyed :
    (f : Fill) (m : LotMethod) (id : ℕ) (l : LotLedger)
    → IsKeyed l.lots
    → member f.id l.booked ≡ false
    → (f.side ≡ OrderSide.buy) ⊎ (f.side ≡ OrderSide.sell)
    → IsKeyed (book_fill f m id l).lots
book_new-IsKeyed f m id l h fresh (inl buy) =
    rw (book_fill-buy_lots f m id l fresh buy)
      (rw (lot_of_fill_id id f) at (insert-IsKeyed (lot_of_fill id f) l.lots h))
book_new-IsKeyed f m id l h fresh (inr sell) =
    elim (Option-cases (close_lots f.agent_id f.symbol f.qty f m (marked f l))) [
      | inl short ↦ rw (book_fill-short f m id l fresh sell short) h
      | inr ((affected, l'), sold) ↦ rw (book_fill-sold f m id l fresh affected l' sell sold) (
          rw ((close_lots-some f.agent_id f.symbol f.qty f m (marked f l) affected l' sold).1)
            (store_lots-IsKeyed _ l.lots h))
    ]

side_cases : (s : OrderSide) → (s ≡ OrderSide.buy) ⊎ (s ≡ OrderSide.sell)
side_cases OrderSide.buy = inl refl
side_cases OrderSide.sell = inr refl

-- Every lot stands under its own id, once, before and after a booking.
pub book_fill-IsKeyed :
    (f : Fill) (m : LotMethod) (id : ℕ) (l : LotLedger)
    → IsKeyed l.lots
    → IsKeyed (book_fill f m id l).lots
unfolding book_fill
book_fill-IsKeyed f m id l h = elim (Bool-cases (member f.id l.booked)) [
  | inl again ↦ rw (again, book_fill) h
  | inr new ↦ book_new-IsKeyed f m id l h new (side_cases f.side)
]

-- A new BUY fill adds its quantity to its position and leaves every other as it was.
pub book_fill-buy :
    (f : Fill) (m : LotMethod) (id : ℕ) (l : LotLedger) (a : AgentId) (s : String)
    → f.side ≡ OrderSide.buy
    → member f.id l.booked ≡ false
    → lookup id l.lots ≡ none
    → total_open_qty a s (book_fill f m id l)
      ≡ total_open_qty a s l
        + (if f.agent_id == a && normalize_symbol f.symbol == normalize_symbol s then f.qty else 0)
book_fill-buy f m id l a s buy new fresh =
    let w = open_weight a (normalize_symbol s) in
    let added = total-insert_new w id (lot_of_fill id f) l.lots fresh in
    let weighed : w (lot_of_fill id f) ≡ (
        if f.agent_id == a && normalize_symbol f.symbol == normalize_symbol s then f.qty else 0) =
      ground arith in
    omega (
      arith,
      total_open_qty-total a s l,
      total_open_qty-total a s (book_fill f m id l),
      ap (total w) (book_fill-buy_lots f m id l new buy),
    )

total_open_qty-marked :
    (f : Fill) (l : LotLedger)
    → total_open_qty f.agent_id f.symbol (marked f l) ≡ total_open_qty f.agent_id f.symbol l
unfolding total_open_qty
total_open_qty-marked f l = refl

some_is_not_none : {A : Type 0} {o : Option A} {a : A} → o ≡ some a → o ≡ none → ⊥
some_is_not_none h k = cc

-- A new SELL fill takes its quantity from its position, and dust beside, where that much is open;
-- where it is not the lots stay as they are, and the fill counts as booked all the same.
pub book_fill-sell :
    (f : Fill) (m : LotMethod) (id : ℕ) (l : LotLedger)
    → IsKeyed l.lots
    → f.side ≡ OrderSide.sell
    → member f.id l.booked ≡ false
    → let l' = book_fill f m id l in
      let open_qty = total_open_qty f.agent_id f.symbol l in
      (member f.id l'.booked ≡ true)
      × (open_qty < f.qty → l'.lots ≡ l.lots)
      × (f.qty ≤ open_qty
          → (dust : ℕ) × (open_qty ≡ f.qty + total_open_qty f.agent_id f.symbol l' + dust)
            × IsDust f.price dust)
book_fill-sell f m id l keyed sell new =
    let qty = total_open_qty-marked f l in
    let refused = close_lots-none_iff f.agent_id f.symbol f.qty f m (marked f l) sell in
    elim (Option-cases (close_lots f.agent_id f.symbol f.qty f m (marked f l))) [
      | inl short ↦ (
        book_fill-booked f m id l,
        λ _. book_fill-short f m id l new sell short,
        λ enough. absurd (omega (arith, refused.0 short)),
      )
      | inr ((affected, l'), sold) ↦
          let same = book_fill-sold f m id l new affected l' sell sold in
          let (dust, taken, is_dust) =
            close_lots-total_open_qty f.agent_id f.symbol f.qty f m (marked f l) affected l' keyed
              sold in
          (
            book_fill-booked f m id l,
            λ short. absurd (some_is_not_none sold (refused.1 (rw qty short))),
            λ _. (dust, rw same (rw qty at taken), is_dust),
          )
    ]
