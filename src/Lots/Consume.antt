-- ===== src/Lots/Consume.antt =====
-- The loop of `close_lots` over the candidates.
use multi_agent_llm_trading.Prelude.{
  ℕ, ◌+◌, ◌-◌, ◌*◌, ◌≤◌, ◌<◌, ◌≡◌, refl, ◌⊎◌, inl, inr, true, List, [], ◌∷◌, ◌++◌, min, arith, leb,
  leb→le, if◌then◌else◌, ◌&&◌, eqb, ltb, Bool-cases,
}
use multi_agent_llm_trading.Types.{Fill, Lot}
use multi_agent_llm_trading.Lots.{sum_remaining, consume, consume_lot, snap_dust, dust_notional_usd}

-- The candidates that the loop does not reach.
unfoldable pub untouched : ℕ → List Lot → List Lot
untouched wanted [] = []
untouched wanted (lot ∷ lots) =
    let rest = untouched (wanted - min lot.remaining_qty wanted) lots in
    if eqb wanted 0 then lot ∷ lots else rest

-- Less than a cent at the price of the sale, and nothing where the price is 0.
abbrev pub IsDust : ℕ → ℕ → Type 0
IsDust price dust = (dust ≡ 0) ⊎ ((0 < price) × (dust * price < dust_notional_usd))

consume_lot-snap_dust :
    (f : Fill) (wanted : ℕ) (lot : Lot)
    → (consume_lot f wanted lot).remaining_qty
      ≡ snap_dust f.price (lot.remaining_qty - min lot.remaining_qty wanted)
consume_lot-snap_dust f wanted lot = ground arith

-- What is written off with a lot of which `left` is left over.
abbrev written_off : ℕ → ℕ → ℕ
written_off price left = left - snap_dust price left

snap_dust-IsDust :
    (price left : ℕ)
    → (left ≡ snap_dust price left + written_off price left) × IsDust price (written_off price left)
snap_dust-IsDust price left =
    elim (Bool-cases (ltb 0 left && (ltb 0 price && ltb (left * price) dust_notional_usd))) [
      | inl dust ↦ ground arith
      | inr held ↦ ground arith
    ]

-- What a sale writes off in all.
unfoldable pub write_off : Fill → ℕ → List Lot → ℕ
write_off f wanted [] = 0
write_off f wanted (lot ∷ lots) =
    let rest = write_off f (wanted - min lot.remaining_qty wanted) lots in
    if eqb wanted 0
    then 0
    else written_off f.price (lot.remaining_qty - min lot.remaining_qty wanted) + rest

write_off_zero : (f : Fill) (lots : List Lot) → (write_off f 0 lots ≡ 0)
unfolding write_off
write_off_zero f [] = refl
write_off_zero f (lot ∷ lots) = refl

-- What the open quantity was is what was sold, what is left, and the write-off.
pub consume-sum_remaining :
    (f : Fill) (wanted : ℕ) (lots : List Lot)
    → wanted ≤ sum_remaining lots
    → sum_remaining lots
      ≡ wanted
        + sum_remaining (consume f wanted lots ++ untouched wanted lots)
        + write_off f wanted lots
unfolding consume untouched write_off sum_remaining
consume-sum_remaining f wanted [] h = omega arith
consume-sum_remaining f wanted (lot ∷ lots) h = ground (
  arith,
  consume_lot-snap_dust f wanted lot,
  snap_dust-IsDust f.price (lot.remaining_qty - min lot.remaining_qty wanted),
  consume-sum_remaining f (wanted - min lot.remaining_qty wanted) lots,
)

-- The write-off of a whole sale is dust: only the last lot can leave some.
pub write_off-IsDust :
    (f : Fill) (wanted : ℕ) (lots : List Lot) → IsDust f.price (write_off f wanted lots)
unfolding write_off
write_off-IsDust f wanted [] = inl refl
write_off-IsDust f wanted (lot ∷ lots) =
    let ih = write_off-IsDust f (wanted - min lot.remaining_qty wanted) lots in
    let here = (snap_dust-IsDust f.price (lot.remaining_qty - min lot.remaining_qty wanted)).1 in
    elim (Bool-cases (leb lot.remaining_qty wanted)) [
      | inl emptied ↦
          let none_left : lot.remaining_qty - min lot.remaining_qty wanted ≡ 0 = ground arith in
          rw none_left (ground arith)
      | inr kept ↦
          let done : wanted - min lot.remaining_qty wanted ≡ 0 = ground arith in
          rw (done, write_off_zero f lots) (ground arith)
    ]

-- A sale closes lots in their order: every lot that it touches but the last is emptied by it.
abbrev pub ClosedButLast : List Lot → Type 0
ClosedButLast [] = Unit
ClosedButLast (lot ∷ []) = Unit
ClosedButLast (lot ∷ next ∷ lots) =
    (lot.is_closed ≡ true) × (lot.remaining_qty ≡ 0) × ClosedButLast (next ∷ lots)

ClosedButLast-cons :
    (x : Lot) (xs : List Lot)
    → ((x.is_closed ≡ true) × (x.remaining_qty ≡ 0)) ⊎ (xs ≡ [])
    → ClosedButLast xs
    → ClosedButLast (x ∷ xs)
ClosedButLast-cons x [] h c = tt
ClosedButLast-cons x (y ∷ ys) (inl h) c = (h.0, h.1, c)
ClosedButLast-cons x (y ∷ ys) (inr h) c = cc

consume_zero : (f : Fill) (lots : List Lot) → consume f 0 lots ≡ []
unfolding consume
consume_zero f [] = refl
consume_zero f (lot ∷ lots) = refl

consume_lot-closed :
    (f : Fill) (wanted : ℕ) (lot : Lot)
    → lot.remaining_qty ≤ wanted
    → ((consume_lot f wanted lot).is_closed ≡ true) × ((consume_lot f wanted lot).remaining_qty ≡ 0)
consume_lot-closed f wanted lot h =
    let none_left : lot.remaining_qty - min lot.remaining_qty wanted ≡ 0 = ground arith in
    rw none_left (refl, refl)

pub consume-ClosedButLast :
    (f : Fill) (wanted : ℕ) (lots : List Lot) → ClosedButLast (consume f wanted lots)
unfolding consume
consume-ClosedButLast f wanted [] = tt
consume-ClosedButLast f wanted (lot ∷ lots) =
    let rest = consume f (wanted - min lot.remaining_qty wanted) lots in
    let ih = consume-ClosedButLast f (wanted - min lot.remaining_qty wanted) lots in
    elim (Bool-cases (eqb wanted 0)) [
      | inl none_wanted ↦ rw none_wanted tt
      | inr some_wanted ↦ rw some_wanted (elim (Bool-cases (leb lot.remaining_qty wanted)) [
        | inl emptied ↦
            ClosedButLast-cons (consume_lot f wanted lot) rest
              (inl (consume_lot-closed f wanted lot (leb→le _ _ emptied))) ih
        | inr kept ↦
            let done : wanted - min lot.remaining_qty wanted ≡ 0 = ground arith in
            ClosedButLast-cons (consume_lot f wanted lot) rest (inr (rw done (consume_zero f lots)))
              ih
      ])
    ]
