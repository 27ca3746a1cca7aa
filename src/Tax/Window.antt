-- ===== src/Tax/Window.antt =====
-- The thirty days after a sale at a loss.
use multi_agent_llm_trading.Prelude.{
  ℕ, ◌+◌, ◌-◌, ◌*◌, ◌≤◌, ◌<◌, ◌≡◌, refl, true, false, ◌&&◌, ◌||◌, String, some, List, [], ◌∷◌, push,
  max, arith, All, if◌then◌else◌, Bool-cases, Option-cases, inl, inr, ◌==◌, string_eq, leb,
}
use multi_agent_llm_trading.Prelude.Int.{sub_ℕ}
use multi_agent_llm_trading.Types.{AgentId, agent_id_eq, Lot}
use multi_agent_llm_trading.Tax.{
  WashSaleRecord, record_sale, concerns, in_window, is_blocked, best_remaining, days_remaining,
}

mul_le : (a b c : ℕ) → a ≤ b → a * c ≤ b * c
mul_le a b c h = grind arith

mul_lt : (a b c : ℕ) → a < b → 0 < c → a * c < b * c
mul_lt a b c h k = let more = mul_le (a + 1) b c (omega arith) in omega arith

pub is_blocked-push :
    (a : AgentId) (s : String) (d : ℕ) (rs : List WashSaleRecord) (r : WashSaleRecord)
    → is_blocked a s d (push rs r)
      ≡ (is_blocked a s d rs || (concerns a s r && in_window r.sale_date d))
unfolding is_blocked
is_blocked-push a s d [] r = ground arith
is_blocked-push a s d (x ∷ rs) r = ground (arith, is_blocked-push a s d rs r)

-- A closed lot sold below its entry price blocks a purchase of the same symbol by the same agent
-- from the day of the sale to the thirtieth day after it, both included, and no other purchase that
-- was free before.
pub record_sale_blocks :
    (lot : Lot) (price day : ℕ) (rs : List WashSaleRecord) (a : AgentId) (s : String) (d : ℕ)
    → lot.exit_price ≡ some price
    → lot.exit_date ≡ some day
    → price < lot.entry_price
    → lot.remaining_qty < lot.qty
    → is_blocked a s d (record_sale lot rs) ≡ (
        is_blocked a s d rs
        || ((lot.agent_id == a && lot.symbol == s) && (leb day d && leb d (day + 30))))
unfolding record_sale
record_sale_blocks lot price day rs a s d ep ed loss sold =
    let smaller = mul_lt price lot.entry_price (lot.qty - lot.remaining_qty) loss (omega arith) in
    let r : WashSaleRecord = record {
      symbol = lot.symbol;
      agent_id = lot.agent_id;
      sale_date = day;
      loss =
          sub_ℕ (price * (lot.qty - lot.remaining_qty))
            (lot.entry_price * (lot.qty - lot.remaining_qty));
    } in
    rw (ep, ed) (ground (arith, is_blocked-push a s d rs r))

-- A sale at or above the entry price, or one with nothing sold, blocks nothing.
pub record_sale_gain :
    (lot : Lot) (price : ℕ) (rs : List WashSaleRecord)
    → lot.exit_price ≡ some price
    → lot.entry_price ≤ price
    → record_sale lot rs ≡ rs
unfolding record_sale
record_sale_gain lot price rs ep gain =
    let bigger = mul_le lot.entry_price price (lot.qty - lot.remaining_qty) gain in
    elim (Option-cases lot.exit_date) [
      | inl missing ↦ rw (ep, missing) refl
      | inr (day, ed) ↦ rw (ep, ed) (ground arith)
    ]

-- The greater of two counts of days, the second where there is one.
best_remaining-max :
    (a : AgentId) (s : String) (d best : ℕ) (rs : List WashSaleRecord)
    → best_remaining a s d best rs ≡ max best (best_remaining a s d 0 rs)
unfolding best_remaining
best_remaining-max a s d best [] = omega arith
best_remaining-max a s d best (r ∷ rs) =
    let window_end = r.sale_date + 30 in
    elim (Bool-cases (concerns a s r && leb d window_end)) [
      | inl counts ↦ rw counts (
          omega (
            arith,
            best_remaining-max a s d (max best (window_end - d)) rs,
            best_remaining-max a s d (max 0 (window_end - d)) rs,
          ))
      | inr not_ ↦ rw not_ (omega (arith, best_remaining-max a s d best rs))
    ]

-- The days that one record leaves.
abbrev left_of : AgentId → String → ℕ → WashSaleRecord → ℕ
left_of a s d r = if concerns a s r && leb d (r.sale_date + 30) then r.sale_date + 30 - d else 0

best_remaining-cons :
    (a : AgentId) (s : String) (d : ℕ) (r : WashSaleRecord) (rs : List WashSaleRecord)
    → best_remaining a s d 0 (r ∷ rs) ≡ max (left_of a s d r) (best_remaining a s d 0 rs)
unfolding best_remaining
best_remaining-cons a s d r rs = elim (Bool-cases (concerns a s r && leb d (r.sale_date + 30))) [
  | inl counts ↦
      rw counts (omega (arith, best_remaining-max a s d (max 0 (r.sale_date + 30 - d)) rs))
  | inr passed ↦ rw passed (omega arith)
]

-- Every sale on record was on or before the day.
abbrev pub SoldBy : ℕ → List WashSaleRecord → Type 0
SoldBy d = All (λ r. r.sale_date ≤ d)

free_after :
    (a : AgentId) (s : String) (d e : ℕ) (rs : List WashSaleRecord)
    → d + best_remaining a s d 0 rs < e
    → is_blocked a s e rs ≡ false
unfolding is_blocked
free_after a s d e [] h = refl
free_after a s d e (r ∷ rs) h =
    ground (arith, best_remaining-cons a s d r rs, free_after a s d e rs)

blocked_while :
    (a : AgentId) (s : String) (d : ℕ) (rs : List WashSaleRecord)
    → SoldBy d rs
    → (best_remaining a s d 0 rs ≤ 30)
      × (0 < best_remaining a s d 0 rs → is_blocked a s d rs ≡ true)
unfolding is_blocked best_remaining
blocked_while a s d [] h = (omega arith, λ p. absurd (omega arith))
blocked_while a s d (r ∷ rs) h =
    let (capped, blocked) = blocked_while a s d rs h.1 in
    (
      ground (arith, best_remaining-cons a s d r rs, h.0),
      λ p. ground (arith, best_remaining-cons a s d r rs, h.0),
    )

-- On a day that no recorded sale lies after, days remain only while purchases are blocked, at most
-- thirty of them, and a purchase is free once that many days have passed and one more.
pub days_remaining_window :
    (a : AgentId) (s : String) (d : ℕ) (rs : List WashSaleRecord)
    → SoldBy d rs
    → (days_remaining a s d rs ≤ 30)
      × (0 < days_remaining a s d rs → is_blocked a s d rs ≡ true)
      × (is_blocked a s (d + days_remaining a s d rs + 1) rs ≡ false)
unfolding days_remaining
days_remaining_window a s d rs h =
    let (capped, blocked) = blocked_while a s d rs h in
    (capped, blocked, free_after a s d (d + best_remaining a s d 0 rs + 1) rs (omega arith))
