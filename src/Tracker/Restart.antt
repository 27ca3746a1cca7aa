-- ===== src/Tracker/Restart.antt =====
-- The tracker over a restart, from the rows of its file.
use multi_agent_llm_trading.Prelude.{
  ℕ, ◌≡◌, refl, ap, ◌∙◌, false, String, Option, some, [], arith, beq_refl,
}
use multi_agent_llm_trading.Types.{AgentId, agent_id_eq, OrderSide, order_side_eq, Fill}
use multi_agent_llm_trading.Tracker.{
  AgentStateTracker, apply_fill, apply_mark, new_tracker, update_on_fill, update_on_mark,
  rebuild_from_ledger, maybe_persist,
}
use multi_agent_llm_trading.Tracker.Record.{PerAgentRecord, row_of, is_loss}

-- A tracker that is built anew on the same file.
unfoldable pub restart : AgentStateTracker → AgentStateTracker
unfolding new_tracker
restart t = new_tracker t.kill t.ledger t.default_equity t.bus t.db

-- The file has a row of every record as it is.
abbrev pub IsPersisted : AgentStateTracker → Type 0
IsPersisted t = t.db ≡ some (λ a. some (row_of (t.records a)))

restart-persisted :
    (t : AgentStateTracker) (table : AgentId → Option PerAgentRecord) (b : AgentId)
    → t.db ≡ some table
    → (restart (maybe_persist t)).records b ≡ row_of ((maybe_persist t).records b)
unfolding restart new_tracker
restart-persisted t table b h = rw h refl

restart-row :
    (t : AgentStateTracker) (b : AgentId)
    → IsPersisted t
    → (restart t).records b ≡ row_of (t.records b)
unfolding restart new_tracker
restart-row t b h = rw h refl

-- A sale of what has no cost.
sale-uncosted :
    (t : AgentStateTracker) (now : ℕ) (f : Fill)
    → (t.records f.agent_id).avg_cost ≡ []
    → f.side ≡ OrderSide.sell
    → let t' = update_on_fill now f t in
      ((t'.records f.agent_id).consecutive_losses ≡ 0)
      × ((t'.records f.agent_id).is_benched ≡ false)
      × (t'.kill ≡ t.kill)
unfolding update_on_fill apply_fill is_loss
sale-uncosted t now f uncosted sell = ground (arith, beq_refl f.agent_id)

restart-rebuilt :
    (marks : String → Option ℕ) (t : AgentStateTracker) (table : AgentId → Option PerAgentRecord)
    (b : AgentId)
    → t.db ≡ some table
    → (restart (rebuild_from_ledger marks t)).records b
      ≡ row_of ((rebuild_from_ledger marks t).records b)
unfolding rebuild_from_ledger restart new_tracker
restart-rebuilt marks t table b h = rw h refl

apply_fill-db : (now : ℕ) (f : Fill) (t : AgentStateTracker) → (apply_fill now f t).db ≡ t.db
unfolding apply_fill
apply_fill-db now f t = ground arith

apply_mark-db :
    (now : ℕ) (a : AgentId) (marks : String → Option ℕ) (t : AgentStateTracker)
    → (apply_mark now a marks t).db ≡ t.db
unfolding apply_mark
apply_mark-db now a marks t = ground arith

-- With a file, every update writes all that a restart reads back: a record comes back without its
-- costs and quantities.
pub restart-updated :
    (table : AgentId → Option PerAgentRecord) (t : AgentStateTracker)
    → t.db ≡ some table
    → (now : ℕ) (f : Fill) (a b : AgentId) (marks : String → Option ℕ)
    → ((restart (update_on_fill now f t)).records b ≡ row_of ((update_on_fill now f t).records b))
      × ((restart (update_on_mark now a marks t)).records b
          ≡ row_of ((update_on_mark now a marks t).records b))
      × ((restart (rebuild_from_ledger marks t)).records b
          ≡ row_of ((rebuild_from_ledger marks t).records b))
unfolding update_on_fill update_on_mark
restart-updated table t h now f a b marks = (
  restart-persisted (apply_fill now f t) table b (apply_fill-db now f t ∙ h),
  restart-persisted (apply_mark now a marks t) table b (apply_mark-db now a marks t ∙ h),
  restart-rebuilt marks t table b h,
)

-- Where the file is up to date: a sale that comes first after a restart counts as no loss at any
-- price. It ends its agent's run of losses and lifts its bench, and the kill switch is not told.
pub restart-sale :
    (t : AgentStateTracker) (now : ℕ) (f : Fill)
    → IsPersisted t
    → f.side ≡ OrderSide.sell
    → let t' = update_on_fill now f (restart t) in
      ((t'.records f.agent_id).consecutive_losses ≡ 0)
      × ((t'.records f.agent_id).is_benched ≡ false)
      × (t'.kill ≡ t.kill)
unfolding restart new_tracker
restart-sale t now f saved sell =
    let uncosted : ((restart t).records f.agent_id).avg_cost ≡ [] =
      ap (λ rec. rec.avg_cost) (restart-row t f.agent_id saved) in
    sale-uncosted (restart t) now f uncosted sell
