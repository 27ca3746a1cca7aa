-- ===== src/Lots/Sorting.antt =====
-- The order in which the candidates of a sale are consumed.
use multi_agent_llm_trading.Prelude.{
  ◌+◌, ◌≡◌, ◌≢◌, refl, sym, inl, inr, true, false, List, [], ◌∷◌, arith, All, Bool-cases,
}
use multi_agent_llm_trading.Types.{Lot, LotMethod, fifo, lifo}
use multi_agent_llm_trading.Lots.{sort_lots, insert_sorted, may_precede, sum_remaining}

-- Each lot may precede all that follow it.
abbrev pub IsSorted : LotMethod → List Lot → Type 0
IsSorted method [] = Unit
IsSorted method (x ∷ xs) = All (λ y. may_precede method x y ≡ true) xs × IsSorted method xs

-- No two lots of the list have one id.
abbrev pub Distinct : List Lot → Type 0
Distinct [] = Unit
Distinct (x ∷ xs) = All (λ y. y.id ≢ x.id) xs × Distinct xs

pub insert_sorted-All :
    (P : Lot → Type 0) (method : LotMethod) (x : Lot) (ys : List Lot)
    → P x
    → All P ys
    → All P (insert_sorted method x ys)
unfolding insert_sorted
insert_sorted-All P method x [] px h = (px, tt)
insert_sorted-All P method x (y ∷ ys) px h = elim (Bool-cases (may_precede method x y)) [
  | inl before ↦ rw before (px, h)
  | inr after ↦ rw after (h.0, insert_sorted-All P method x ys px h.1)
]

pub sort_lots-All :
    (P : Lot → Type 0) (method : LotMethod) (xs : List Lot) → All P xs → All P (sort_lots method xs)
unfolding sort_lots
sort_lots-All P method [] h = tt
sort_lots-All P method (x ∷ xs) h =
    insert_sorted-All P method x (sort_lots method xs) h.0 (sort_lots-All P method xs h.1)

insert_sorted-Distinct :
    (method : LotMethod) (x : Lot) (ys : List Lot)
    → All (λ y. y.id ≢ x.id) ys
    → Distinct ys
    → Distinct (insert_sorted method x ys)
unfolding insert_sorted
insert_sorted-Distinct method x [] h d = (tt, tt)
insert_sorted-Distinct method x (y ∷ ys) h d = elim (Bool-cases (may_precede method x y)) [
  | inl before ↦ rw before (h, d)
  | inr after ↦ rw after (
    insert_sorted-All (λ z. z.id ≢ y.id) method x ys (λ e. h.0 (sym e)) d.0,
    insert_sorted-Distinct method x ys h.1 d.1,
  )
]

pub sort_lots-Distinct :
    (method : LotMethod) (xs : List Lot) → Distinct xs → Distinct (sort_lots method xs)
unfolding sort_lots
sort_lots-Distinct method [] d = tt
sort_lots-Distinct method (x ∷ xs) d =
    insert_sorted-Distinct method x (sort_lots method xs)
      (sort_lots-All (λ y. y.id ≢ x.id) method xs d.0) (sort_lots-Distinct method xs d.1)

may_precede_total :
    (method : LotMethod) (x y : Lot)
    → may_precede method x y ≡ false
    → may_precede method y x ≡ true
may_precede_total fifo x y h = ground arith
may_precede_total lifo x y h = ground arith

may_precede_trans :
    (method : LotMethod) (x y z : Lot)
    → may_precede method x y ≡ true
    → may_precede method y z ≡ true
    → may_precede method x z ≡ true
may_precede_trans fifo x y z h k = ground arith
may_precede_trans lifo x y z h k = ground arith

All-may_precede :
    (method : LotMethod) (x y : Lot) (zs : List Lot)
    → may_precede method x y ≡ true
    → All (λ z. may_precede method y z ≡ true) zs
    → All (λ z. may_precede method x z ≡ true) zs
All-may_precede method x y [] h k = tt
All-may_precede method x y (z ∷ zs) h k =
    (may_precede_trans method x y z h k.0, All-may_precede method x y zs h k.1)

insert_sorted-IsSorted :
    (method : LotMethod) (x : Lot) (ys : List Lot)
    → IsSorted method ys
    → IsSorted method (insert_sorted method x ys)
unfolding insert_sorted
insert_sorted-IsSorted method x [] s = (tt, tt)
insert_sorted-IsSorted method x (y ∷ ys) s = elim (Bool-cases (may_precede method x y)) [
  | inl before ↦ rw before ((before, All-may_precede method x y ys before s.0), s)
  | inr after ↦ rw after (
    insert_sorted-All (λ z. may_precede method y z ≡ true) method x ys
        (may_precede_total method x y after) s.0,
    insert_sorted-IsSorted method x ys s.1,
  )
]

-- FIFO puts the oldest lots first, LIFO the newest.
pub sort_lots-IsSorted :
    (method : LotMethod) (xs : List Lot) → IsSorted method (sort_lots method xs)
unfolding sort_lots
sort_lots-IsSorted method [] = tt
sort_lots-IsSorted method (x ∷ xs) =
    insert_sorted-IsSorted method x (sort_lots method xs) (sort_lots-IsSorted method xs)

-- A sum over the lots does not change.
sum_remaining-insert_sorted :
    (method : LotMethod) (x : Lot) (ys : List Lot)
    → sum_remaining (insert_sorted method x ys) ≡ x.remaining_qty + sum_remaining ys
unfolding insert_sorted sum_remaining
sum_remaining-insert_sorted method x [] = refl
sum_remaining-insert_sorted method x (y ∷ ys) =
    ground (arith, sum_remaining-insert_sorted method x ys)

pub sum_remaining-sort_lots :
    (method : LotMethod) (xs : List Lot) → sum_remaining (sort_lots method xs) ≡ sum_remaining xs
unfolding sort_lots sum_remaining
sum_remaining-sort_lots method [] = refl
sum_remaining-sort_lots method (x ∷ xs) = omega (
  arith,
  sum_remaining-insert_sorted method x (sort_lots method xs),
  sum_remaining-sort_lots method xs,
)
