-- ===== src/Reconciler/Expected.antt =====
-- execution/reconciler.py: the positions that the fills of the OMS give.
use multi_agent_llm_trading.Prelude.{
  ℕ, ◌≡◌, ◌≢◌, refl, sym, ap, ◌∙◌, true, not, String, none, some, List, [], ◌∷◌, map, keep, push,
  All, foldl, eqb, nat_eq, string_eq, ◌==◌, if◌then◌else◌, Bool-cases, inl, inr, eq_of_beq,
  ne_of_beq, arith,
}
use multi_agent_llm_trading.Prelude.Int.{ℤ, pos, ◌+ℤ◌}
use multi_agent_llm_trading.Prelude.Dict.{
  Dict, lookup, insert, lookup-insert_self, lookup-insert_ne,
}
use multi_agent_llm_trading.Types.{order_side_eq, Order, Fill}
use multi_agent_llm_trading.Oms.State.{Entry, Oms}
use multi_agent_llm_trading.Oms.Api.{}
use multi_agent_llm_trading.Reconciler.Orders.{get_fills}
use multi_agent_llm_trading.FakeBroker.{signed, abs_ℤ}
use multi_agent_llm_trading.Reconciler.Positions.{qty_or_zero, add_fill, sum_fills}

-- The quantity that the books give a symbol.
abbrev pub of_symbol : String → Dict String ℤ → ℤ
of_symbol s d = qty_or_zero (lookup s d)

-- What a fill adds to it.
abbrev pub share : String → Fill → ℤ
share s f = if s == f.symbol then signed f.side f.qty else pos 0

add_zero : (a : ℤ) → a +ℤ pos 0 ≡ a
unfolding ◌+ℤ◌
add_zero a = ground arith

pub add_fill-share :
    (s : String) (d : Dict String ℤ) (f : Fill)
    → of_symbol s (add_fill d f) ≡ of_symbol s d +ℤ share s f
add_fill-share s d f = elim (Bool-cases (s == f.symbol)) [
  | inl e ↦
      let same : s ≡ f.symbol = eq_of_beq s f.symbol e in
      rw e (rw same (ap qty_or_zero (lookup-insert_self f.symbol _ d)))
  | inr e ↦
      rw (e, add_zero (of_symbol s d))
        (ap qty_or_zero (lookup-insert_ne s f.symbol _ d (ne_of_beq s f.symbol e)))
]

-- No key stands twice, so that dropping the zeros drops no other entry's value.
abbrev pub AllDistinct : Dict String ℤ → Type 0
AllDistinct [] = Unit
AllDistinct ((k, v) ∷ d) = (lookup k d ≡ none) × AllDistinct d

insert-AllDistinct :
    (k : String) (v : ℤ) (d : Dict String ℤ) → AllDistinct d → AllDistinct (insert k v d)
insert-AllDistinct k v [] h = (refl, tt)
insert-AllDistinct k v ((j, w) ∷ d) h = elim (Bool-cases (k == j)) [
  | inl e ↦ rw e h
  | inr e ↦ rw e (
    lookup-insert_ne j k v d (λ same. ne_of_beq k j e (sym same)) ∙ h.0,
    insert-AllDistinct k v d h.1,
  )
]

lookup-keep-none :
    (s : String) (d : Dict String ℤ)
    → lookup s d ≡ none
    → lookup s (keep (λ e. not (eqb (abs_ℤ e.1) 0)) d) ≡ none
lookup-keep-none s [] h = refl
lookup-keep-none s ((k, v) ∷ d) h = ground (arith, lookup-keep-none s d)

zero_of_abs : (q : ℤ) → eqb (abs_ℤ q) 0 ≡ true → q ≡ pos 0
zero_of_abs q h = ground arith

pub lookup-keep :
    (s : String) (d : Dict String ℤ)
    → AllDistinct d
    → of_symbol s (keep (λ e. not (eqb (abs_ℤ e.1) 0)) d) ≡ of_symbol s d
lookup-keep s [] h = refl
lookup-keep s ((k, v) ∷ d) h = elim (Bool-cases (eqb (abs_ℤ v) 0)) [
  | inl zero' ↦ elim (Bool-cases (s == k)) [
    | inl e ↦
        let same : s ≡ k = eq_of_beq s k e in
        let gone = lookup-keep-none s d (rw same h.0) in
        rw (zero', e) (ap qty_or_zero gone ∙ sym (zero_of_abs v zero'))
    | inr e ↦ rw (zero', e) (lookup-keep s d h.1)
  ]
  | inr some' ↦ elim (Bool-cases (s == k)) [
    | inl e ↦ rw (some', e) refl
    | inr e ↦ rw (some', e) (lookup-keep s d h.1)
  ]
]

foldl-AllDistinct :
    (fs : List Fill) (d : Dict String ℤ) → AllDistinct d → AllDistinct (foldl add_fill d fs)
foldl-AllDistinct [] d h = h
foldl-AllDistinct (f ∷ fs) d h =
    foldl-AllDistinct fs (add_fill d f) (insert-AllDistinct f.symbol _ d h)

pub sum_fills-AllDistinct :
    (orders : List Order) (o : Oms) (d : Dict String ℤ)
    → AllDistinct d
    → AllDistinct (sum_fills orders o d)
unfolding sum_fills
sum_fills-AllDistinct [] o d h = h
sum_fills-AllDistinct (order ∷ orders) o d h =
    sum_fills-AllDistinct orders o _ (foldl-AllDistinct (get_fills order.id o) d h)

pub sum_fills-push :
    (orders : List Order) (last : Order) (o : Oms) (d : Dict String ℤ)
    → sum_fills (push orders last) o d ≡ foldl add_fill (sum_fills orders o d) (get_fills last.id o)
unfolding sum_fills
sum_fills-push [] last o d = refl
sum_fills-push (order ∷ orders) last o d =
    sum_fills-push orders last o (foldl add_fill d (get_fills order.id o))

-- The orders whose id is not that of an entry that is added keep their fills.
abbrev pub NotNamed : ℕ → Dict ℕ Entry → Type 0
NotNamed id = All (λ e. e.1.order.id ≢ id)

module _ (id : ℕ) (x : Entry) (o o' : Oms) (entries : o'.entries ≡ insert id x o.entries) where
  get_fills-other : (i : ℕ) → i ≢ id → get_fills i o' ≡ get_fills i o
  get_fills-other i ne =
      let same : lookup i o'.entries ≡ lookup i o.entries =
        rw entries (lookup-insert_ne i id x o.entries ne) in
      rw (get_fills, same) refl

  pub get_fills-added : x.order.id ≡ id → get_fills x.order.id o' ≡ x.fills
  get_fills-added same =
      let at : lookup x.order.id o'.entries ≡ some x =
        ap (λ i. lookup i o'.entries) same
        ∙ ap (lookup id) entries
        ∙ lookup-insert_self id x o.entries in
      rw (get_fills, at) refl

  pub sum_fills-other :
      (d : Dict ℕ Entry) (acc : Dict String ℤ)
      → NotNamed id d
      → sum_fills (map (λ e. e.1.order) d) o' acc ≡ sum_fills (map (λ e. e.1.order) d) o acc
  unfolding sum_fills
  sum_fills-other [] acc h = refl
  sum_fills-other ((k, e) ∷ d) acc h =
      ap (λ fs. sum_fills (map (λ x. x.1.order) d) o' (foldl add_fill acc fs))
        (get_fills-other e.order.id h.0)
      ∙ sum_fills-other d (foldl add_fill acc (get_fills e.order.id o)) h.1

  pub orders-insert :
      (d : Dict ℕ Entry)
      → lookup id d ≡ none
      → map (λ e. e.1.order) (insert id x d) ≡ push (map (λ e. e.1.order) d) x.order
  orders-insert [] h = refl
  orders-insert ((k, e) ∷ d) h = elim (Bool-cases (id == k)) [
    | inl e' ↦ absurd (ground arith)
    | inr e' ↦
        let rest : lookup id d ≡ none = ground arith in
        rw e' (ap (λ l. e.order ∷ l) (orders-insert d rest))
  ]
