-- ===== src/Fsm/Laws.antt =====
-- What holds of every state machine, whatever its table, guards and actions.
use multi_agent_llm_trading.Prelude.{
  ◌≡◌, refl, ◌∙◌, All-append, Bool, true, false, Option, none, some, Option-cases, Bool-cases, inl,
  inr, ◌++◌, List, [], ◌∷◌, ◌&&◌, ◌||◌, push, Eq, ◌==◌, arith, All, map, keep, beq_sym, beq_refl,
  if◌then◌else◌,
}
use mathlib.Core.List.{append-nil, append_assoc}
use multi_agent_llm_trading.Fsm.{
  Transition, HistoryEntry, StateMachine, find_arc, new_machine, register, passes, can_trigger,
  trigger, reset, valid_events,
}

module _ {V : Type 0} ⦃v : Eq V⦄ where
  pub has_event : V → List V → Bool
  has_event ev [] = false
  has_event ev (x ∷ xs) = ev == x || has_event ev xs

module _ {E S V : Type 0} ⦃s : Eq S⦄ ⦃v : Eq V⦄ where
  -- `trigger` fires exactly when `can_trigger` says so, a refused event changes nothing (neither
  -- machine nor environment), and one that fires adds one entry to the history.
  pub trigger-can_trigger :
      (m : StateMachine E S V) (ev : V) (env : E)
      → ((trigger m ev env).0 ≡ can_trigger m ev env)
        × (can_trigger m ev env ≡ false → trigger m ev env ≡ (false, m, env))
        × (can_trigger m ev env ≡ true
            → (trigger m ev env).1.history
              ≡ push m.history (m.state, some ev, (trigger m ev env).1.state))
  unfolding trigger can_trigger
  trigger-can_trigger m ev env = (ground arith, ground arith, ground arith)

  -- An entry that the table accounts for: a reset, or an arc of the table.
  abbrev Accounted : List (Transition E S V) → S → Option V → S → Type 0
  Accounted table from none to = Unit
  Accounted table from (some ev) to = elim (find_arc from ev table) [
    | none ↦ ⊥
    | some t ↦ t.to_state ≡ to
  ]

  -- The history leads from `start` to `cur`, each entry beginning where the one before it ended.
  abbrev pub IsTrace : List (Transition E S V) → S → List (HistoryEntry S V) → S → Type 0
  IsTrace table start [] cur = start ≡ cur
  IsTrace table start ((from, ev, to) ∷ h) cur =
      (start ≡ from) × Accounted table from ev to × IsTrace table to h cur

  IsTrace-push :
      (table : List (Transition E S V)) (start : S) (h : List (HistoryEntry S V)) (cur : S)
      (ev : Option V) (to : S)
      → IsTrace table start h cur
      → Accounted table cur ev to
      → IsTrace table start (push h (cur, ev, to)) to
  IsTrace-push table start [] cur ev to h a = (h, a, refl)
  IsTrace-push table start ((f, e, t) ∷ hs) cur ev to h a =
      (h.0, h.1, IsTrace-push table t hs cur ev to h.2 a)

  pub trigger-table :
      (m : StateMachine E S V) (ev : V) (env : E) → (trigger m ev env).1.table ≡ m.table
  unfolding trigger
  trigger-table m ev env = ground arith

  pub trigger-IsTrace :
      (m : StateMachine E S V) (ev : V) (env : E) (start : S)
      → IsTrace m.table start m.history m.state
      → IsTrace m.table start (trigger m ev env).1.history (trigger m ev env).1.state
  unfolding trigger
  trigger-IsTrace m ev env start h = elim (Option-cases (find_arc m.state ev m.table)) [
    | inl missing ↦ rw (missing, trigger) h
    | inr (t, found) ↦ elim (Bool-cases (passes t env)) [
      | inl open_guard ↦
          rw (found, trigger)
            (rw (open_guard, trigger)
              (IsTrace-push m.table start m.history m.state (some ev) t.to_state h
                (rw (found, Accounted) refl)))
      | inr shut ↦ rw (found, trigger) (rw (shut, trigger) h)
    ]
  ]

  -- From the initial state on, the history is a path through the table (or a forced reset) that
  -- ends in the current state; `trigger` and `reset` keep that, and neither changes the table.
  pub history_explains_state :
      (m : StateMachine E S V) (start : S)
      → IsTrace m.table start m.history m.state
      → ((ev : V) (env : E)
          → let m' = (trigger m ev env).1 in
            (m'.table ≡ m.table) × IsTrace m.table start m'.history m'.state)
        × ((st : S) → IsTrace m.table start (reset m st).history (reset m st).state)
  unfolding reset
  history_explains_state m start h = (
    λ ev env. (trigger-table m ev env, trigger-IsTrace m ev env start h),
    λ st. IsTrace-push m.table start m.history m.state none st h tt,
  )

module _ {E S V : Type 0} ⦃s : Eq S⦄ ⦃v : Eq V⦄ where
  find_arc-push :
      (a : S) (ev : V) (table : List (Transition E S V)) (t : Transition E S V)
      → find_arc a ev (push table t) ≡ (elim (find_arc a ev table) [
        | none ↦ if a == t.from_state && ev == t.event then some t else none
        | some u ↦ some u
      ])
  unfolding find_arc
  find_arc-push a ev [] t = refl
  find_arc-push a ev (u ∷ table) t = ground (arith, find_arc-push a ev table t)

  -- Each arc of a list is the one that the table gives for its key.
  abbrev pub IsComplete : List (Transition E S V) → List (Transition E S V) → Type 0
  IsComplete table = All (λ t. find_arc t.from_state t.event table ≡ some t)

  IsComplete-push :
      (table ts : List (Transition E S V)) (t : Transition E S V)
      → IsComplete table ts
      → IsComplete (push table t) ts
  IsComplete-push table [] t h = tt
  IsComplete-push table (u ∷ ts) t h = (
    rw (find_arc-push u.from_state u.event table t) (rw h.0 refl),
    IsComplete-push table ts t h.1,
  )

  register-IsComplete :
      (table ts table' : List (Transition E S V))
      → IsComplete table table
      → register table ts ≡ some table'
      → (table' ≡ table ++ ts) × IsComplete table' table'
  unfolding register
  register-IsComplete table [] table' h e =
      let same : table ≡ table' = cc in (rw (append-nil, same) refl, rw (← same) h)
  register-IsComplete table (t ∷ ts) table' h e =
      elim (Option-cases (find_arc t.from_state t.event table)) [
        | inl fresh ↦
            let found : find_arc t.from_state t.event (push table t) ≡ some t =
              rw (find_arc-push t.from_state t.event table t)
                (rw (fresh, beq_refl t.from_state, beq_refl t.event) refl) in
            let whole =
              All-append (λ u. find_arc u.from_state u.event (push table t) ≡ some u) table (t ∷ [])
                (IsComplete-push table table t h) (found, tt) in
            let (listed, complete) =
              register-IsComplete (push table t) ts table' whole (rw (fresh, register) at e) in
            (listed ∙ append_assoc table (t ∷ []) ts, complete)
        | inr (u, taken) ↦ let clash : none ≡ some table' = rw (taken, register) at e in cc
      ]

  -- When a machine is built, its table is the given list of arcs, every arc of it is found under its
  -- key (so no two share one), and the machine starts in the given state with an empty history.
  pub new_machine-IsComplete :
      (st : S) (ts : List (Transition E S V)) (m : StateMachine E S V)
      → new_machine st ts ≡ some m
      → (m.state ≡ st) × (m.table ≡ ts) × (m.history ≡ []) × IsComplete m.table ts
  unfolding new_machine
  new_machine-IsComplete st ts m h = elim (Option-cases (register [] ts)) [
    | inl duplicate ↦ ground arith
    | inr (table, built) ↦
        let (listed, complete) = register-IsComplete [] ts table tt built in ground (arith)
  ]

  valid_events-keep :
      (a : S) (ev : V) (table : List (Transition E S V))
      → has_event ev (map (λ t. t.event) (keep (λ t. t.from_state == a) table))
        ≡ (elim (find_arc a ev table) [ none ↦ false | some _ ↦ true ])
  unfolding has_event find_arc
  valid_events-keep a ev [] = refl
  valid_events-keep a ev (t ∷ table) =
      ground (arith, valid_events-keep a ev table, beq_sym a t.from_state)

  -- An event that can fire is among the valid events of its state.
  pub can_trigger-valid_events :
      (m : StateMachine E S V) (ev : V) (env : E)
      → can_trigger m ev env ≡ true
      → has_event ev (valid_events m) ≡ true
  unfolding can_trigger valid_events
  can_trigger-valid_events m ev env h = ground (arith, valid_events-keep m.state ev m.table)
