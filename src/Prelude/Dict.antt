-- ===== src/Prelude/Dict.antt =====
-- A Python dict: an association list in insertion order. A write to a key that is there stays in
-- its place.
use mathlib.Core.Path.{◌≡◌}
use mathlib.Core.Logic.{◌≢◌}
use mathlib.Core.Bool.{Bool, true, false}
use mathlib.Core.Option.{Option, none, some}
use mathlib.Core.List.{List, [], ◌∷◌}
use native.Mathlib.Omega.{arith}
use multi_agent_llm_trading.Prelude.Tests.{if◌then◌else◌}
use multi_agent_llm_trading.Prelude.Equality.{Eq, ◌==◌, beq_refl, eq_of_beq, beq_ne}

abbrev pub Dict {ℓ κ} : Type ℓ → Type κ → Type (ℓ ⊔ κ)
Dict K V = List (K × V)

module _ {ℓ κ} {K : Type ℓ} {V : Type κ} ⦃e : Eq K⦄ where
  abbrev pub lookup : K → Dict K V → Option V
  lookup k [] = none
  lookup k ((j, v) ∷ d) = if k == j then some v else lookup k d

  -- `d[k] = v`
  abbrev pub insert : K → V → Dict K V → Dict K V
  insert k v [] = (k, v) ∷ []
  insert k v ((j, w) ∷ d) = if k == j then (j, v) ∷ d else (j, w) ∷ insert k v d

  -- `k in d`
  abbrev pub contains : K → Dict K V → Bool
  contains k d = elim (lookup k d) [ none ↦ false | some _ ↦ true ]

  pub lookup-insert_self : (k : K) (v : V) (d : Dict K V) → lookup k (insert k v d) ≡ some v
  lookup-insert_self k v [] = ground (arith, beq_refl k)
  lookup-insert_self k v ((j, w) ∷ d) = ground (arith, lookup-insert_self k v d)

  pub lookup-insert_ne :
      (i k : K) (v : V) (d : Dict K V) → i ≢ k → lookup i (insert k v d) ≡ lookup i d
  lookup-insert_ne i k v [] h = ground (arith, beq_ne i k h)
  lookup-insert_ne i k v ((j, w) ∷ d) h =
      ground (arith, lookup-insert_ne i k v d h, beq_ne i k h, eq_of_beq k j, eq_of_beq i j)

  -- The last write of two to one key is the one that counts.
  pub insert-insert_self :
      (k : K) (v w : V) (d : Dict K V) → insert k v (insert k w d) ≡ insert k v d
  insert-insert_self k v w [] = ground (arith, beq_refl k)
  insert-insert_self k v w ((j, x) ∷ d) = ground (arith, insert-insert_self k v w d)
