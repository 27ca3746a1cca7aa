-- ===== src/Reconciler/Positions.antt =====
-- execution/reconciler.py: `_compute_expected_positions` and `_reconcile_positions`.
use multi_agent_llm_trading.Prelude.{
  ℕ, zero, suc, ◌*◌, ◌^◌, length, Bool, true, false, not, ◌&&◌, String, Option, none, some, List,
  [], ◌∷◌, ◌++◌, push, keep, map, foldl, nat_eq, string_eq, ltb, leb, eqb, if◌then◌else◌,
}
use multi_agent_llm_trading.Prelude.Int.{ℤ, pos, pos_part, ◌+ℤ◌, ◌-ℤ◌}
use multi_agent_llm_trading.Prelude.Dict.{Dict, lookup, insert, contains}
use multi_agent_llm_trading.Types.{AgentId, Order, Fill}
use multi_agent_llm_trading.KillSwitch.{trip_reconciliation_break}
use multi_agent_llm_trading.Oms.Vocabulary.{BrokerPosition}
use multi_agent_llm_trading.Oms.State.{Oms, Outcome, ok, raised}
use multi_agent_llm_trading.Oms.Api.{GhostIds, adopt_orphan_position}
use multi_agent_llm_trading.FakeBroker.{signed, abs_ℤ}
use multi_agent_llm_trading.Reconciler.{Reconciler, reconciliation_break, notify, is_in}
use multi_agent_llm_trading.Reconciler.Orders.{list_orders, get_fills}

abbrev pub qty_or_zero : Option ℤ → ℤ
qty_or_zero none = pos 0
qty_or_zero (some q) = q

-- `positions[fill.symbol] = positions.get(fill.symbol, 0) + sign * fill.qty`
abbrev pub add_fill : Dict String ℤ → Fill → Dict String ℤ
add_fill d fill =
    insert fill.symbol (qty_or_zero (lookup fill.symbol d) +ℤ signed fill.side fill.qty) d

unfoldable pub sum_fills : List Order → Oms → Dict String ℤ → Dict String ℤ
sum_fills [] o d = d
sum_fills (order ∷ orders) o d = sum_fills orders o (foldl add_fill d (get_fills order.id o))

unfoldable pub compute_expected_positions : Oms → Dict String ℤ
unfolding sum_fills
compute_expected_positions o = keep (λ e. not (eqb (abs_ℤ e.1) 0)) (sum_fills (list_orders o) o [])

-- `{p.symbol: p for p in positions}`
abbrev pub by_symbol : List BrokerPosition → Dict String BrokerPosition
by_symbol = foldl (λ d p. insert p.symbol p d) []

abbrev pub keys : {V : Type 0} → Dict String V → List String
keys = map (λ e. e.0)

-- `set(expected.keys()) | set(broker_positions.keys())`, in some order.
abbrev pub all_symbols : Dict String ℤ → Dict String BrokerPosition → List String
all_symbols expected held = keys expected ++ keep (λ s. not (contains s expected)) (keys held)

abbrev pub dollar_tolerance : ℕ
dollar_tolerance = 10 ^ 36

-- Our quantity, the broker's, and what they differ by in dollars.
pub record Mismatch : Type 0 where
  pub our_qty : ℤ
  pub broker_qty : ℤ
  pub dollar_drift : ℕ

-- What the loop over the symbols has found so far.
pub record Findings : Type 0 where
  pub mismatches : List String
  pub details : Dict String Mismatch

abbrev pub broker_qty_of : Option BrokerPosition → ℤ
broker_qty_of none = pos 0
broker_qty_of (some p) = p.qty

abbrev pub price_of : Option BrokerPosition → ℕ
price_of none = 0
price_of (some p) = p.current_price

abbrev pub drift : ℤ → ℤ → ℕ
drift a b = abs_ℤ (a -ℤ b)

-- The comparison for one symbol: within the tolerances, an orphan to adopt, or a mismatch.
pub data Comparison : Type 0 where
  agree orphan : Comparison
  differ : Mismatch → Comparison

unfoldable pub compare_symbol : ℕ → ℤ → Option BrokerPosition → Comparison
compare_symbol qty_tolerance our_qty held =
    let qty_drift = drift our_qty (broker_qty_of held) in
    let dollar_drift = qty_drift * price_of held in
    if ltb qty_drift qty_tolerance && leb dollar_drift dollar_tolerance
    then Comparison.agree
    else if eqb (abs_ℤ our_qty) 0 && ltb 0 (pos_part (broker_qty_of held))
    then Comparison.orphan
    else Comparison.differ
        (record { our_qty = our_qty; broker_qty = broker_qty_of held; dollar_drift = dollar_drift })

-- A failed adoption is a mismatch that has no details.
abbrev pub adopted : String → Findings → Outcome (Unit {0}) → Oms × Findings
adopted symbol f (ok _, o) = (o, f)
adopted symbol f (raised _, o) = (o, record f { mismatches = push f.mismatches symbol })

abbrev pub act_on :
    (String → GhostIds)
    → AgentId
    → ℕ
    → String
    → Option BrokerPosition
    → Comparison
    → Oms
    → Findings
    → Oms × Findings
act_on ids agent_id ts symbol held Comparison.agree o f = (o, f)
act_on ids agent_id ts symbol held Comparison.orphan o f = adopted symbol f (
    adopt_orphan_position (ids symbol) symbol (pos_part (broker_qty_of held)) (price_of held)
      agent_id ts o)
act_on ids agent_id ts symbol held (Comparison.differ m) o f =
    (o, record { mismatches = push f.mismatches symbol; details = insert symbol m f.details })

unfoldable pub compare_all :
    (String → GhostIds)
    → AgentId
    → ℕ
    → ℕ
    → Dict String ℤ
    → Dict String BrokerPosition
    → List String
    → Oms
    → Findings
    → Oms × Findings
unfolding compare_symbol
compare_all ids agent_id qty_tolerance ts expected held [] o f = (o, f)
compare_all ids agent_id qty_tolerance ts expected held (symbol ∷ symbols) o f =
    let found =
      compare_symbol qty_tolerance (qty_or_zero (lookup symbol expected)) (lookup symbol held) in
    let (o', f') = act_on ids agent_id ts symbol (lookup symbol held) found o f in
    compare_all ids agent_id qty_tolerance ts expected held symbols o' f'

-- `mismatches[:5]`
abbrev pub take : {A : Type 0} → ℕ → List A → List A
take zero xs = []
take (suc n) [] = []
take (suc n) (x ∷ xs) = x ∷ take n xs

-- The loop over the new breaks. A mismatch with no details is a KeyError, which ends it.
unfoldable pub publish_breaks : List String → Dict String Mismatch → Reconciler → Reconciler
publish_breaks [] details r = r
publish_breaks (symbol ∷ symbols) details r = elim (lookup symbol details) [
  | none ↦ r
  | some m ↦
      publish_breaks symbols details
        (record (notify (reconciliation_break symbol m.our_qty m.broker_qty m.dollar_drift) r) {
          alerted_breaks = push r.alerted_breaks symbol;
        })
]

-- What follows the loop over the symbols.
unfoldable pub report_mismatches : Findings → Reconciler → (ℕ × Bool) × Reconciler
unfolding publish_breaks is_in
report_mismatches f r =
    let seen = keep (λ s. is_in s f.mismatches) r.alerted_breaks in
    let tripped = record r { alerted_breaks = seen; kill = trip_reconciliation_break r.kill } in
    let fresh = keep (λ s. not (is_in s seen)) (take 5 f.mismatches) in
    elim f.mismatches [
      | [] ↦ ((0, false), record r { alerted_breaks = seen })
      | _ ↦ (
        (length f.mismatches, true),
        elim r.bus [ none ↦ tripped | some _ ↦ publish_breaks fresh f.details tripped ],
      )
    ]

-- `_reconcile_positions`: the number of mismatches, and whether the kill switch was tripped.
unfoldable pub reconcile_positions :
    (String → GhostIds)
    → (List String → List String)
    → Option (List BrokerPosition)
    → ℕ
    → Reconciler
    → (ℕ × Bool) × Reconciler
unfolding compute_expected_positions compare_all report_mismatches
reconcile_positions ids arrange none ts r = ((0, false), r)
reconcile_positions ids arrange (some positions) ts r =
    let expected = compute_expected_positions r.oms in
    let held = by_symbol positions in
    let (o, f) =
      compare_all ids r.orphan_agent_id r.qty_tolerance ts expected held
        (arrange (all_symbols expected held)) r.oms (record { mismatches = []; details = [] }) in
    report_mismatches f (record r { oms = o })
