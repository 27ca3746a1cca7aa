-- ===== src/Types/Symbols.antt =====
-- `normalize_symbol` of core/types.py: a crypto pair loses its slash.
use Prim.Native.Char.{Char, code}
use Prim.Native.String.{String}
use multi_agent_llm_trading.Prelude.{
  ◌≡◌, refl, Bool, false, ◌||◌, eqb, Bool-cases, inl, inr, if◌then◌else◌,
}

abbrev is_slash : Char → Bool
is_slash c = eqb (code c) b'/'

-- `"/" in symbol`
has_slash : String → Bool
has_slash String.[] = false
has_slash (String.◌∷◌ c s) = is_slash c || has_slash s

-- `symbol.replace("/", "")`
remove_slashes : String → String
remove_slashes String.[] = String.[]
remove_slashes (String.◌∷◌ c s) =
    let rest = remove_slashes s in if is_slash c then rest else String.◌∷◌ c rest

unfoldable pub normalize_symbol : String → String
unfolding has_slash remove_slashes
normalize_symbol symbol = if has_slash symbol then remove_slashes symbol else symbol

has_slash-remove_slashes : (s : String) → has_slash (remove_slashes s) ≡ false
unfolding has_slash remove_slashes
has_slash-remove_slashes String.[] = refl
has_slash-remove_slashes (String.◌∷◌ c s) = elim (Bool-cases (is_slash c)) [
  | inl slash ↦ rw slash (has_slash-remove_slashes s)
  | inr other ↦ rw other (rw other (has_slash-remove_slashes s))
]

-- Normalizing a symbol that is normalized changes nothing.
pub normalize_symbol_idem :
    (s : String) → normalize_symbol (normalize_symbol s) ≡ normalize_symbol s
unfolding normalize_symbol
normalize_symbol_idem s = elim (Bool-cases (has_slash s)) [
  | inl slash ↦ rw (slash, has_slash-remove_slashes s)
  | inr other ↦ rw (other, other)
]
