-- ===== src/Reconciler/Adoption.antt =====
-- execution/reconciler.py: adopted positions in the books of the next pass.
use multi_agent_llm_trading.Prelude.{
  ℕ, ◌<◌, ◌≡◌, refl, sym, ap, ◌∙◌, String, none, some, [], ◌∷◌, push, foldl, nat_eq, string_eq,
  ◌==◌, if◌then◌else◌, Option-cases, inl, inr, beq_refl, arith,
}
use multi_agent_llm_trading.Prelude.Int.{pos, ◌-ℤ◌, ◌+ℤ◌}
use multi_agent_llm_trading.Prelude.Dict.{lookup, insert, lookup-insert_self, insert-insert_self}
use multi_agent_llm_trading.Types.{AgentId, OrderSide, order_side_eq, OrderEvent, Fill}
use multi_agent_llm_trading.Oms.Vocabulary.{BrokerPosition}
use multi_agent_llm_trading.Oms.State.{Entry, Oms, ok, transition_entry}
use multi_agent_llm_trading.Oms.Handlers.{handle_fill, stamp_fill, fill_event, filled_entry}
use multi_agent_llm_trading.Oms.Api.{
  GhostIds, ghost_fill, ghost_entry, with_ghost, adopt_orphan_position, inject_ghost,
}
use multi_agent_llm_trading.Reconciler.Orders.{list_orders, get_fills}
use multi_agent_llm_trading.Reconciler.Positions.{
  qty_or_zero, Comparison, compare_symbol, add_fill, sum_fills, compute_expected_positions,
}
use multi_agent_llm_trading.Reconciler.Expected.{
  of_symbol, share, add_fill-share, lookup-keep, sum_fills-AllDistinct, sum_fills-push,
  get_fills-added, sum_fills-other, orders-insert, NotNamed,
}

transition_entry-same :
    (id ts : ℕ) (ev : OrderEvent) (e : Entry)
    → let e' = (transition_entry id ev ts e).0 in (e'.fills ≡ e.fills) × (e'.order.id ≡ e.order.id)
unfolding transition_entry
transition_entry-same id ts ev e = (ground arith, ground arith)

zero_plus : (q : ℕ) → pos 0 +ℤ pos q ≡ pos q
unfolding ◌+ℤ◌
zero_plus q = ground arith

no_drift : (q : ℕ) → pos q -ℤ pos q ≡ pos 0
unfolding ◌-ℤ◌
no_drift q = ground arith

compare_symbol-same :
    (qty_tolerance q : ℕ) (p : BrokerPosition)
    → 0 < qty_tolerance
    → p.qty ≡ pos q
    → compare_symbol qty_tolerance (pos q) (some p) ≡ Comparison.agree
unfolding compare_symbol
compare_symbol-same qty_tolerance q p positive held =
    rw (compare_symbol, held, no_drift q) (ground arith)

-- The first fill of an order.
handle_fill-first :
    (id ts : ℕ) (fill : Fill) (e : Entry) (o : Oms)
    → lookup id o.entries ≡ some e
    → e.order.filled_avg_price ≡ none
    → let out = handle_fill id fill ts o in
      (out.0 ≡ ok tt)
      × ((e' : Entry) × (out.1.entries ≡ insert id e' o.entries)
          × (e'.fills ≡ push e.fills (stamp_fill e.order fill))
          × (e'.order.id ≡ e.order.id))
unfolding handle_fill filled_entry
handle_fill-first id ts fill e o known no_average =
    let stamped = stamp_fill e.order fill in
    elim (Option-cases (filled_entry ts stamped e)) [
      | inl none' ↦ absurd (ground arith)
      | inr (x, found) ↦
          let (fills, same) = transition_entry-same id ts (fill_event stamped e) x in
          (
            ground arith,
            (
              (transition_entry id (fill_event stamped e) ts x).0,
              ground arith,
              ground arith,
              ground arith,
            ),
          )
    ]

-- An adoption under a fresh order id adds one entry, whose only fill is the ghost's.
module _ (ids : GhostIds) (symbol : String) (qty price : ℕ) (agent_id : AgentId) (ts : ℕ)
    (o : Oms) where
  adopt_entry :
      let out = adopt_orphan_position ids symbol qty price agent_id ts o in
      (out.0 ≡ ok tt)
      × ((e : Entry) × (out.1.entries ≡ insert ids.order_id e o.entries)
          × (e.fills ≡ ghost_fill ids OrderSide.buy symbol qty price agent_id ts ∷ [])
          × (e.order.id ≡ ids.order_id))
  unfolding inject_ghost
  adopt_entry =
      let id = ids.order_id in
      let ghost = ghost_entry ids OrderSide.buy symbol qty agent_id ts in
      let (fine, (e, entries, fills, same)) =
        handle_fill-first id ts (ghost_fill ids OrderSide.buy symbol qty price agent_id ts) ghost
          (with_ghost ids OrderSide.buy symbol qty agent_id ts o)
          (lookup-insert_self id ghost o.entries) refl in
      (fine, (e, entries ∙ insert-insert_self id e ghost o.entries, fills, same))

  adopt-expected :
      lookup ids.order_id o.entries ≡ none
      → NotNamed ids.order_id o.entries
      → (s : String)
      → let out = adopt_orphan_position ids symbol qty price agent_id ts o in
        (out.0 ≡ ok tt)
        × (of_symbol s (compute_expected_positions out.1)
            ≡ of_symbol s (compute_expected_positions o)
              +ℤ (if s == symbol then pos qty else pos 0))
  unfolding compute_expected_positions
  adopt-expected fresh unnamed s =
      let (fine, (e, entries, fills, same_id)) = adopt_entry in
      let o' = (adopt_orphan_position ids symbol qty price agent_id ts o).1 in
      let id = ids.order_id in
      let ghost = ghost_fill ids OrderSide.buy symbol qty price agent_id ts in
      let orders : list_orders o' ≡ push (list_orders o) e.order =
        rw entries (orders-insert id e o o' entries o.entries fresh) in
      let last : get_fills e.order.id o' ≡ ghost ∷ [] =
        get_fills-added id e o o' entries same_id ∙ fills in
      let summed : sum_fills (list_orders o') o' []
          ≡ add_fill (sum_fills (list_orders o) o []) ghost =
        ap (λ l. sum_fills l o' []) orders
        ∙ sum_fills-push (list_orders o) e.order o' []
        ∙ ap (foldl add_fill (sum_fills (list_orders o) o' [])) last
        ∙ ap (λ d. add_fill d ghost) (sum_fills-other id e o o' entries o.entries [] unnamed) in
      (
        fine,
        lookup-keep s (sum_fills (list_orders o') o' [])
              (sum_fills-AllDistinct (list_orders o') o' [] tt)
            ∙ ap (of_symbol s) summed
            ∙ add_fill-share s (sum_fills (list_orders o) o []) ghost
            ∙ ap (λ q. q +ℤ share s ghost)
                (sym (
                  lookup-keep s (sum_fills (list_orders o) o [])
                    (sum_fills-AllDistinct (list_orders o) o [] tt))),
      )

  -- An orphan that is adopted under an order id that no order has counts from then on: what the
  -- OMS's fills give its symbol grows by the adopted quantity, and no other symbol's changes. Where
  -- the OMS had nothing of the symbol, the next comparison with a broker position of that quantity
  -- finds agreement, at any price.
  pub adopt-agrees :
      (qty_tolerance : ℕ) (p : BrokerPosition) (s : String)
      → 0 < qty_tolerance
      → p.qty ≡ pos qty
      → lookup ids.order_id o.entries ≡ none
      → NotNamed ids.order_id o.entries
      → qty_or_zero (lookup symbol (compute_expected_positions o)) ≡ pos 0
      → let out = adopt_orphan_position ids symbol qty price agent_id ts o in
        let before = compute_expected_positions o in
        let after = compute_expected_positions out.1 in
        (out.0 ≡ ok tt)
        × (qty_or_zero (lookup s after)
            ≡ qty_or_zero (lookup s before) +ℤ (if s == symbol then pos qty else pos 0))
        × (compare_symbol qty_tolerance (qty_or_zero (lookup symbol after)) (some p)
            ≡ Comparison.agree)
  adopt-agrees qty_tolerance p s positive held fresh unnamed nothing =
      let (fine, grown) = adopt-expected fresh unnamed s in
      let (_, own) = adopt-expected fresh unnamed symbol in
      let now_held = qty_or_zero (
        lookup symbol (
          compute_expected_positions
            (adopt_orphan_position ids symbol qty price agent_id ts o).1)) in
      let ours : now_held ≡ pos qty = own ∙ rw (nothing, beq_refl symbol) (zero_plus qty) in
      (
        fine,
        grown,
        ap (λ q. compare_symbol qty_tolerance q (some p)) ours
            ∙ compare_symbol-same qty_tolerance qty p positive held,
      )
