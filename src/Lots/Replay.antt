-- ===== src/Lots/Replay.antt =====
-- `replay_from_oms_store`: the lot ledger rebuilt from the fills in the log of the OMS.
--
-- The payload of a fill is a fill here, so the decoding never fails. The ids that new lots draw are
-- a function of the fill.
use multi_agent_llm_trading.Prelude.{
  ℕ, ◌+◌, ◌≡◌, refl, true, Option, none, some, List, [], ◌∷◌, push, length, nat_eq, ltb,
  if◌then◌else◌, arith, Bool-cases, Option-cases, inl, inr, All,
}
use multi_agent_llm_trading.Types.{Fill, LotMethod, order_side_eq}
use multi_agent_llm_trading.Oms.Vocabulary.{LoggedEvent, EventKind, fill_received}
use multi_agent_llm_trading.Lots.{LotLedger, member, book_fill, open_lot, close_lots}

abbrev pub fill_of : EventKind → Option Fill
fill_of (fill_received fill) = some fill
fill_of _ = none

-- One row of the log, and whether it was a fill that was booked.
unfoldable pub replay_row : (ℕ → ℕ) → LoggedEvent → LotLedger → ℕ × LotLedger
replay_row lot_id row l = elim (fill_of row.kind) [
  | none ↦ (0, l)
  | some fill ↦
      let l' = book_fill fill LotMethod.fifo (lot_id fill.id) l in
      (if ltb (length l.booked) (length l'.booked) then 1 else 0, l')
]

unfoldable pub replay_from_oms_store : (ℕ → ℕ) → List LoggedEvent → LotLedger → ℕ × LotLedger
replay_from_oms_store lot_id [] l = (0, l)
replay_from_oms_store lot_id (row ∷ rows) l =
    let (n, l') = replay_row lot_id row l in
    let (m, l'') = replay_from_oms_store lot_id rows l' in (n + m, l'')

-- Booking marks a new fill, and nothing else.
book_fill-marks :
    (f : Fill) (m : LotMethod) (id : ℕ) (l : LotLedger)
    → (book_fill f m id l).booked ≡ (if member f.id l.booked then l.booked else push l.booked f.id)
unfolding book_fill open_lot close_lots
book_fill-marks f m id l = ground arith

book_fill-again :
    (f : Fill) (m : LotMethod) (id : ℕ) (l : LotLedger)
    → member f.id l.booked ≡ true
    → book_fill f m id l ≡ l
unfolding book_fill
book_fill-again f m id l h = ground arith

member-push_new : (x : ℕ) (xs : List ℕ) → member x (push xs x) ≡ true
member-push_new x [] = ground arith
member-push_new x (y ∷ ys) = ground (arith, member-push_new x ys)

member-push_old : (x y : ℕ) (xs : List ℕ) → member x xs ≡ true → member x (push xs y) ≡ true
member-push_old x y [] h = absurd (ground arith)
member-push_old x y (z ∷ zs) h = ground (arith, member-push_old x y zs)

book_fill-keeps :
    (x : ℕ) (f : Fill) (m : LotMethod) (id : ℕ) (l : LotLedger)
    → member x l.booked ≡ true
    → member x (book_fill f m id l).booked ≡ true
book_fill-keeps x f m id l h = elim (Bool-cases (member f.id l.booked)) [
  | inl again ↦ rw (book_fill-again f m id l again) h
  | inr new ↦ rw (book_fill-marks f m id l) (rw new (member-push_old x f.id l.booked h))
]

book_fill-marked :
    (f : Fill) (m : LotMethod) (id : ℕ) (l : LotLedger)
    → member f.id (book_fill f m id l).booked ≡ true
book_fill-marked f m id l = elim (Bool-cases (member f.id l.booked)) [
  | inl again ↦ rw (book_fill-again f m id l again) again
  | inr new ↦ rw (book_fill-marks f m id l) (rw new (member-push_new f.id l.booked))
]

-- The fill of a row, if it has one, is booked.
abbrev IsBooked : LotLedger → Option Fill → Type 0
IsBooked l none = Unit
IsBooked l (some fill) = member fill.id l.booked ≡ true

module _ (lot_id : ℕ → ℕ) where
  replay_row-keeps :
      (o : Option Fill) (row : LoggedEvent) (l : LotLedger)
      → IsBooked l o
      → IsBooked (replay_row lot_id row l).1 o
  unfolding replay_row
  replay_row-keeps none row l h = tt
  replay_row-keeps (some g) row l h = elim (Option-cases (fill_of row.kind)) [
    | inl other ↦ rw (other, replay_row) h
    | inr (f, found) ↦
        rw (found, replay_row) (book_fill-keeps g.id f LotMethod.fifo (lot_id f.id) l h)
  ]

  replay-keeps :
      (o : Option Fill) (rows : List LoggedEvent) (l : LotLedger)
      → IsBooked l o
      → IsBooked (replay_from_oms_store lot_id rows l).1 o
  unfolding replay_from_oms_store
  replay-keeps o [] l h = h
  replay-keeps o (row ∷ rows) l h =
      replay-keeps o rows (replay_row lot_id row l).1 (replay_row-keeps o row l h)

  replay_row-IsBooked :
      (row : LoggedEvent) (l : LotLedger) → IsBooked (replay_row lot_id row l).1 (fill_of row.kind)
  unfolding replay_row
  replay_row-IsBooked row l = elim (Option-cases (fill_of row.kind)) [
    | inl other ↦ rw other tt
    | inr (f, found) ↦ rw (found, replay_row) (book_fill-marked f LotMethod.fifo (lot_id f.id) l)
  ]

  replay-IsBooked :
      (rows : List LoggedEvent) (l : LotLedger)
      → All (λ row. IsBooked (replay_from_oms_store lot_id rows l).1 (fill_of row.kind)) rows
  unfolding replay_from_oms_store
  replay-IsBooked [] l = tt
  replay-IsBooked (row ∷ rows) l = (
    replay-keeps (fill_of row.kind) rows (replay_row lot_id row l).1 (replay_row-IsBooked row l),
    replay-IsBooked rows (replay_row lot_id row l).1,
  )

  replay_row-again :
      (row : LoggedEvent) (l : LotLedger)
      → IsBooked l (fill_of row.kind)
      → replay_row lot_id row l ≡ (0, l)
  unfolding replay_row
  replay_row-again row l h = elim (Option-cases (fill_of row.kind)) [
    | inl other ↦ rw (other, replay_row) refl
    | inr (f, found) ↦
        let booked : member f.id l.booked ≡ true = rw found at h in
        let same = book_fill-again f LotMethod.fifo (lot_id f.id) l booked in
        rw (found, replay_row) (rw same (ground arith))
  ]

  replay-again :
      (rows : List LoggedEvent) (l : LotLedger)
      → All (λ row. IsBooked l (fill_of row.kind)) rows
      → replay_from_oms_store lot_id rows l ≡ (0, l)
  unfolding replay_from_oms_store
  replay-again [] l h = refl
  replay-again (row ∷ rows) l h =
      rw (replay_row-again row l h.0) (rw (replay-again rows l h.1) refl)

-- Replaying a log into the ledger that its replay has made books nothing and changes nothing,
-- whatever ids the lots would draw.
pub replay_from_oms_store_twice :
    (lot_id lot_id' : ℕ → ℕ) (rows : List LoggedEvent) (l : LotLedger)
    → let l' = (replay_from_oms_store lot_id rows l).1 in
      replay_from_oms_store lot_id' rows l' ≡ (0, l')
replay_from_oms_store_twice lot_id lot_id' rows l =
    replay-again lot_id' rows (replay_from_oms_store lot_id rows l).1
      (replay-IsBooked lot_id rows l)
