-- ===== src/Approval.antt =====
-- execution/approval_queue.py: the queue of intents that wait for a human decision.
--
-- The queue owns the `PendingIntent` objects; what a call returns of one is its value at that time.
pub mod Decisions
mod Examples
use multi_agent_llm_trading.Prelude.{
  ℕ, ◌+◌, ◌*◌, Bool, true, false, not, ◌&&◌, ◌||◌, Option, none, some, List, [], ◌∷◌, map, keep,
  nat_eq, ltb, if◌then◌else◌,
}
use multi_agent_llm_trading.Prelude.Dict.{Dict, lookup, insert}
use multi_agent_llm_trading.Types.{Intent, hour_us}

abbrev pub approval_expiry_hours : ℕ
approval_expiry_hours = 4

pub record PendingIntent : Type 0 where
  pub intent : Intent
  pub received_at : ℕ
  pub expires_at : ℕ
  pub approved : Bool
  pub rejected : Bool

abbrev pub is_pending : PendingIntent → Bool
is_pending p = not p.approved && not p.rejected

abbrev pub is_expired : PendingIntent → Bool
is_expired p = p.rejected && not p.approved

pub record ApprovalQueue : Type 0 where
  pub queue : Dict ℕ PendingIntent
  pub expiry_hours : ℕ

unfoldable pub enqueue : Intent → ℕ → ApprovalQueue → PendingIntent × ApprovalQueue
enqueue intent ts q =
    let p : PendingIntent = record {
      intent = intent;
      received_at = ts;
      expires_at = ts + q.expiry_hours * hour_us;
      approved = false;
      rejected = false;
    } in
    (p, record q { queue = insert intent.id p q.queue })

unfoldable pub pending : ApprovalQueue → List PendingIntent
pending q = keep is_pending (map (λ e. e.1) q.queue)

abbrev put : ℕ → PendingIntent → ApprovalQueue → ApprovalQueue
put id p q = record q { queue = insert id p q.queue }

unfoldable pub approve : ℕ → ℕ → ApprovalQueue → Option Intent × ApprovalQueue
approve id ts q = elim (lookup id q.queue) [
  | none ↦ (none, q)
  | some p ↦
      if not (is_pending p)
      then (none, q)
      else if ltb p.expires_at ts
      then (none, put id (record p { rejected = true }) q)
      else (some p.intent, put id (record p { approved = true }) q)
]

unfoldable pub reject : ℕ → ApprovalQueue → Bool × ApprovalQueue
reject id q = elim (lookup id q.queue) [
  | none ↦ (false, q)
  | some p ↦
      if not (is_pending p) then (false, q) else (true, put id (record p { rejected = true }) q)
]

abbrev pub is_due : ℕ → PendingIntent → Bool
is_due ts p = is_pending p && ltb p.expires_at ts

-- One round of the loop of `expire_old`.
abbrev pub expire : ℕ → PendingIntent → PendingIntent
expire ts p = if is_due ts p then record p { rejected = true } else p

abbrev pub expire_all : ℕ → Dict ℕ PendingIntent → Dict ℕ PendingIntent
expire_all ts [] = []
expire_all ts ((id, p) ∷ d) = (id, expire ts p) ∷ expire_all ts d

unfoldable pub expire_old : ℕ → ApprovalQueue → List PendingIntent × ApprovalQueue
expire_old ts q = (
  map (expire ts) (keep (is_due ts) (map (λ e. e.1) q.queue)),
  record q { queue = expire_all ts q.queue },
)

-- The calls that change the queue.
pub data Op : Type 0 where
  enqueues : Intent → ℕ → Op
  approves : ℕ → ℕ → Op
  rejects : ℕ → Op
  expires : ℕ → Op

unfoldable pub apply : Op → ApprovalQueue → ApprovalQueue
unfolding enqueue approve reject expire_old
apply (enqueues intent ts) q = (enqueue intent ts q).1
apply (approves id ts) q = (approve id ts q).1
apply (rejects id) q = (reject id q).1
apply (expires ts) q = (expire_old ts q).1

unfoldable pub apply_all : List Op → ApprovalQueue → ApprovalQueue
apply_all [] q = q
apply_all (op ∷ ops) q = apply_all ops (apply op q)
