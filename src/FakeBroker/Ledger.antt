-- ===== src/FakeBroker/Ledger.antt =====
-- execution/fake_broker.py: FakeBroker's positions and cash, against its fills.
use multi_agent_llm_trading.Prelude.{
  ℕ, ◌+◌, ◌*◌, ◌≡◌, refl, sym, ap, String, true, false, Option, none, some, [], ◌∷◌, string_eq,
  nat_eq, ◌==◌, eqb, if◌then◌else◌, Bool-cases, inl, inr, ◌∙◌, beq_sym, eq_of_beq, ne_of_beq, arith,
}
use multi_agent_llm_trading.Prelude.Int.{ℤ, pos, pos_part, neg_part, ◌+ℤ◌, ◌-ℤ◌, +ℤ_parts, -ℤ_parts}
use multi_agent_llm_trading.Prelude.Dict.{
  Dict, lookup, insert, lookup-insert_self, lookup-insert_ne,
}
use multi_agent_llm_trading.Types.{OrderSide, order_side_eq, Fill}
use multi_agent_llm_trading.Oms.Vocabulary.{BrokerPosition}
use multi_agent_llm_trading.FakeBroker.{
  FakeBroker, signed, abs_ℤ, delete, new_position, move_position, cost_of,
}
use multi_agent_llm_trading.FakeBroker.Orders.{all_fills}
use multi_agent_llm_trading.FakeBroker.Fills.{total}

-- The quantity held of a symbol.
abbrev pub qty_or : Option BrokerPosition → ℤ
qty_or none = pos 0
qty_or (some p) = p.qty

abbrev pub holding : String → Dict String BrokerPosition → ℤ
holding symbol d = qty_or (lookup symbol d)

-- What a fill adds to the books, and what it takes from them.
abbrev pub bought : String → Fill → ℕ
bought symbol f = if symbol == f.symbol then (if f.side == OrderSide.buy then f.qty else 0) else 0

abbrev pub sold : String → Fill → ℕ
sold symbol f = if symbol == f.symbol then (if f.side == OrderSide.buy then 0 else f.qty) else 0

abbrev pub spent : Fill → ℕ
spent f = if f.side == OrderSide.buy then f.qty * f.price else 0

abbrev pub received : Fill → ℕ
received f = if f.side == OrderSide.buy then 0 else f.qty * f.price

-- Every position is what was bought less what was sold, and the cash is what it was at the start
-- less what was spent and plus what was received.
pub record IsBalanced (b : FakeBroker) : Type 0 where
  pub held :
      (symbol : String)
      → pos_part (holding symbol b.positions) + total (sold symbol) (all_fills b)
        ≡ neg_part (holding symbol b.positions) + total (bought symbol) (all_fills b)
  pub paid :
      pos_part b.cash + neg_part b.starting_cash + total spent (all_fills b)
      ≡ neg_part b.cash + pos_part b.starting_cash + total received (all_fills b)

lookup-delete_self : (k : String) (d : Dict String BrokerPosition) → lookup k (delete k d) ≡ none
lookup-delete_self k [] = refl
lookup-delete_self k ((j, p) ∷ d) = ground (arith, beq_sym j k, lookup-delete_self k d)

lookup-delete_ne :
    (i k : String) (d : Dict String BrokerPosition)
    → (i == k) ≡ false
    → lookup i (delete k d) ≡ lookup i d
lookup-delete_ne i k [] h = refl
lookup-delete_ne i k ((j, p) ∷ d) h =
    ground (arith, eq_of_beq i j, eq_of_beq j k, lookup-delete_ne i k d h)

other_key :
    {V : Type 0} (i k : String) (v : V) (d : Dict String V)
    → (i == k) ≡ false
    → lookup i (insert k v d) ≡ lookup i d
other_key i k v d h = lookup-insert_ne i k v d (ne_of_beq i k h)

zero_of_abs : (s : ℤ) → eqb (abs_ℤ s) 0 ≡ true → s ≡ pos 0
zero_of_abs s h = ground arith

zero-add : (s : ℤ) → pos 0 +ℤ s ≡ s
unfolding ◌+ℤ◌
zero-add s = ground arith

-- A fill moves the position of its symbol by its signed quantity.
module _ (symbol : String) (s : ℤ) (price : ℕ) (d : Dict String BrokerPosition) where
  holding-move_self :
      (found : Option BrokerPosition)
      → lookup symbol d ≡ found
      → holding symbol (move_position symbol s price found d) ≡ qty_or found +ℤ s
  holding-move_self none h = elim (Bool-cases (eqb (abs_ℤ s) 0)) [
    | inl e ↦
        let none_left : s ≡ pos 0 = zero_of_abs s e in rw (e, zero-add s, none_left) (ap qty_or h)
    | inr e ↦ rw e (ap qty_or (lookup-insert_self symbol _ d) ∙ sym (zero-add s))
  ]
  holding-move_self (some p) h = elim (Bool-cases (eqb (abs_ℤ (p.qty +ℤ s)) 0)) [
    | inl e ↦ rw e (ap qty_or (lookup-delete_self symbol d) ∙ sym (zero_of_abs (p.qty +ℤ s) e))
    | inr e ↦ rw e (ap qty_or (lookup-insert_self symbol (new_position s price p) d))
  ]

  holding-move_ne :
      (other : String)
      → (other == symbol) ≡ false
      → (found : Option BrokerPosition)
      → holding other (move_position symbol s price found d) ≡ holding other d
  holding-move_ne other ne none = elim (Bool-cases (eqb (abs_ℤ s) 0)) [
    | inl e ↦ rw e refl
    | inr e ↦ rw e (ap qty_or (other_key other symbol _ d ne))
  ]
  holding-move_ne other ne (some p) = elim (Bool-cases (eqb (abs_ℤ (p.qty +ℤ s)) 0)) [
    | inl e ↦ rw e (ap qty_or (lookup-delete_ne other symbol d ne))
    | inr e ↦ rw e (ap qty_or (other_key other symbol (new_position s price p) d ne))
  ]

-- A fill and the record of its order are added to books that balance.
module _ (f : Fill) (b b' : FakeBroker)
    (positions : b'.positions
      ≡ move_position f.symbol
          (signed f.side f.qty)
          f.price
          (lookup f.symbol b.positions)
          b.positions)
    (cash : b'.cash ≡ b.cash -ℤ cost_of f.side f.qty f.price)
    (start : b'.starting_cash ≡ b.starting_cash)
    (more : (weight : Fill → ℕ)
      → total weight (all_fills b') ≡ total weight (all_fills b) + weight f) where
  book-held :
      (symbol : String)
      → pos_part (holding symbol b.positions) + total (sold symbol) (all_fills b)
        ≡ neg_part (holding symbol b.positions) + total (bought symbol) (all_fills b)
      → pos_part (holding symbol b'.positions) + total (sold symbol) (all_fills b')
        ≡ neg_part (holding symbol b'.positions) + total (bought symbol) (all_fills b')
  book-held symbol h = elim (Bool-cases (symbol == f.symbol)) [
    | inl e ↦
        let same : symbol ≡ f.symbol = eq_of_beq symbol f.symbol e in
        let moved : holding symbol b'.positions
            ≡ holding symbol b.positions +ℤ signed f.side f.qty =
          rw (same, positions)
            (holding-move_self f.symbol (signed f.side f.qty) f.price b.positions
              (lookup f.symbol b.positions) refl) in
        rw moved (
          ground (
            arith,
            more (sold symbol),
            more (bought symbol),
            +ℤ_parts (holding symbol b.positions) (signed f.side f.qty),
          ))
    | inr e ↦
        let moved : holding symbol b'.positions ≡ holding symbol b.positions = rw positions (
          holding-move_ne f.symbol (signed f.side f.qty) f.price b.positions symbol e
            (lookup f.symbol b.positions)) in
        rw moved (ground (arith, more (sold symbol), more (bought symbol)))
  ]

  pub book-IsBalanced : IsBalanced b → IsBalanced b'
  book-IsBalanced h = record {
    held = λ symbol. book-held symbol (h.held symbol);
    paid =
        rw (cash, start)
          (ground (
            arith,
            h.paid,
            more spent,
            more received,
            -ℤ_parts b.cash (cost_of f.side f.qty f.price),
          ));
  }

-- What leaves positions, cash and fills alone leaves the books balanced.
pub same_books-IsBalanced :
    (b b' : FakeBroker)
    → b'.positions ≡ b.positions
    → b'.cash ≡ b.cash
    → b'.starting_cash ≡ b.starting_cash
    → ((weight : Fill → ℕ) → total weight (all_fills b') ≡ total weight (all_fills b))
    → IsBalanced b
    → IsBalanced b'
same_books-IsBalanced b b' positions cash start totals h = record {
  held = λ symbol. rw (positions, totals (sold symbol), totals (bought symbol)) (h.held symbol);
  paid = rw (cash, start, totals spent, totals received) h.paid;
}
