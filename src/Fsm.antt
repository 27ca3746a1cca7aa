-- ===== src/Fsm.antt =====
-- core/state_machine.py: the generic guarded state machine.
--
-- A guard and an action are zero-argument callables; what they read and change is the environment
-- `E`, which `trigger` takes and gives back. The table is a dict keyed by (from_state, event); since
-- `__init__` refuses a second arc for a key, it is the list of the arcs in order of registration.
pub mod Laws
pub mod OrderFsm
mod Examples
use multi_agent_llm_trading.Prelude.{
  Bool, true, false, ◌&&◌, Option, none, some, List, [], ◌∷◌, map, push, Eq, ◌==◌, keep,
  if◌then◌else◌,
}

pub record Transition (E S V : Type 0) : Type 0 where
  pub from_state : S
  pub event : V
  pub to_state : S
  pub guard : Option (E → Bool)
  pub action : Option (E → E)

-- An entry of the history; the event of a forced reset is `none`, the source's sentinel.
abbrev pub HistoryEntry : Type 0 → Type 0 → Type 0
HistoryEntry S V = S × Option V × S

pub record StateMachine (E S V : Type 0) : Type 0 where
  pub state : S
  pub table : List (Transition E S V)
  pub history : List (HistoryEntry S V)

module _ {E S V : Type 0} ⦃s : Eq S⦄ ⦃v : Eq V⦄ where
  -- `self._table.get((state, event))`
  unfoldable pub find_arc : S → V → List (Transition E S V) → Option (Transition E S V)
  find_arc st ev [] = none
  find_arc st ev (t ∷ ts) =
      if st == t.from_state && ev == t.event then some t else find_arc st ev ts

  -- The loop of `__init__`; `none` is the ValueError for a duplicate arc.
  register : List (Transition E S V) → List (Transition E S V) → Option (List (Transition E S V))
  unfolding find_arc
  register table [] = some table
  register table (t ∷ ts) =
      let rest = register (push table t) ts in
      elim (find_arc t.from_state t.event table) [ none ↦ rest | some _ ↦ none ]

  unfoldable pub new_machine : S → List (Transition E S V) → Option (StateMachine E S V)
  unfolding register
  new_machine initial_state transitions = elim (register [] transitions) [
    | none ↦ none
    | some table ↦ some (record { state = initial_state; table = table; history = [] })
  ]

  -- A missing guard passes.
  abbrev pub passes : Transition E S V → E → Bool
  passes t env = elim t.guard [ none ↦ true | some g ↦ g env ]

  abbrev pub run_action : Transition E S V → E → E
  run_action t env = elim t.action [ none ↦ env | some a ↦ a env ]

  unfoldable pub can_trigger : StateMachine E S V → V → E → Bool
  can_trigger m ev env = elim (find_arc m.state ev m.table) [ none ↦ false | some t ↦ passes t env ]

  abbrev advance : StateMachine E S V → V → Transition E S V → StateMachine E S V
  advance m ev t = record m {
    state = t.to_state;
    history = push m.history (m.state, some ev, t.to_state);
  }

  unfoldable pub trigger : StateMachine E S V → V → E → Bool × StateMachine E S V × E
  trigger m ev env = elim (find_arc m.state ev m.table) [
    | none ↦ (false, m, env)
    | some t ↦ if passes t env then (true, advance m ev t, run_action t env) else (false, m, env)
  ]

  unfoldable pub valid_events : StateMachine E S V → List V
  valid_events m = map (λ t. t.event) (keep (λ t. t.from_state == m.state) m.table)

  unfoldable pub reset : StateMachine E S V → S → StateMachine E S V
  reset m st = record m { state = st; history = push m.history (m.state, none, st) }
