-- ===== src/Approval/Decisions.antt =====
-- Decisions of the approval queue: when an intent is given out, and that it is given out once.
use multi_agent_llm_trading.Prelude.{
  ℕ, ◌≤◌, ◌≡◌, ◌≢◌, ◌↔◌, refl, Bool, true, false, not, none, some, List, [], ◌∷◌, nat_eq, ◌==◌,
  Bool-cases, inl, inr, arith, Option-cases, ltb, All,
}
use multi_agent_llm_trading.Prelude.Dict.{Dict, lookup, insert, lookup-insert_ne}
use multi_agent_llm_trading.Types.{Intent}
use multi_agent_llm_trading.Approval.{
  PendingIntent, ApprovalQueue, is_pending, approve, reject, expire, expire_all, expire_old,
  enqueue, Op, enqueues, approves, rejects, expires, apply, apply_all,
}

-- Approval gives an intent out exactly when it is in the queue, undecided, and its window is open:
-- the moment of expiry is still inside.
pub approve-some_iff :
    (id ts : ℕ) (p : PendingIntent) (q : ApprovalQueue)
    → lookup id q.queue ≡ some p
    → ((approve id ts q).0 ≡ some p.intent) ↔ ((is_pending p ≡ true) × (ts ≤ p.expires_at))
unfolding approve
approve-some_iff id ts p q known = (λ h. ground arith, λ h. ground arith)

-- An intent that is decided.
abbrev pub IsDecided : ℕ → PendingIntent → ApprovalQueue → Type 0
IsDecided id p q = (lookup id q.queue ≡ some p) × (is_pending p ≡ false)

-- The call does not enqueue an intent under the id again.
abbrev pub spares : ℕ → Op → Bool
spares id (enqueues intent ts) = not (intent.id == id)
spares id _ = true

lookup-expire_all :
    (id ts : ℕ) (d : Dict ℕ PendingIntent)
    → lookup id (expire_all ts d)
      ≡ (elim (lookup id d) [ none ↦ none | some p ↦ some (expire ts p) ])
lookup-expire_all id ts [] = refl
lookup-expire_all id ts ((j, p) ∷ d) = ground (arith, lookup-expire_all id ts d)

module _ (id : ℕ) (p : PendingIntent) (q : ApprovalQueue) (decided : IsDecided id p q) where
  -- A write under another id leaves a decided intent alone.
  write-IsDecided :
      (j : ℕ) (p' : PendingIntent)
      → id ≢ j
      → IsDecided id p (record q { queue = insert j p' q.queue })
  write-IsDecided j p' apart = (rw (lookup-insert_ne id j p' q.queue apart) (decided.0), decided.1)

  -- One that is found undecided is another one.
  other_id :
      (j : ℕ) (p' : PendingIntent) → lookup j q.queue ≡ some p' → is_pending p' ≡ true → id ≢ j
  other_id j p' found open_ same =
      let clash : lookup j q.queue ≡ some p = rw (← same) decided.0 in ground (arith, decided.1)

  approve-IsDecided : (j ts : ℕ) → IsDecided id p (approve j ts q).1
  unfolding approve
  approve-IsDecided j ts = elim (Option-cases (lookup j q.queue)) [
    | inl missing ↦ rw (missing, approve) decided
    | inr (p', found) ↦ elim (Bool-cases (is_pending p')) [
      | inl waits ↦
          let write = λ (v : PendingIntent). write-IsDecided j v (other_id j p' found waits) in
          elim (Bool-cases (ltb p'.expires_at ts)) [
            | inl late ↦
                rw (found, approve)
                  (rw (waits, approve) (rw (late, approve) (write (record p' { rejected = true }))))
            | inr timely ↦
                rw (found, approve)
                  (rw (waits, approve)
                    (rw (timely, approve) (write (record p' { approved = true }))))
          ]
      | inr over ↦ rw (found, approve) (rw (over, approve) decided)
    ]
  ]

  reject-IsDecided : (j : ℕ) → IsDecided id p (reject j q).1
  unfolding reject
  reject-IsDecided j = elim (Option-cases (lookup j q.queue)) [
    | inl missing ↦ rw (missing, reject) decided
    | inr (p', found) ↦ elim (Bool-cases (is_pending p')) [
      | inl waits ↦
          rw (found, reject)
            (rw (waits, reject)
              (write-IsDecided j (record p' { rejected = true }) (other_id j p' found waits)))
      | inr over ↦ rw (found, reject) (rw (over, reject) decided)
    ]
  ]

  expire_old-IsDecided : (ts : ℕ) → IsDecided id p (expire_old ts q).1
  unfolding expire_old
  expire_old-IsDecided ts =
      let kept : expire ts p ≡ p = ground (arith, decided.1) in
      (rw (lookup-expire_all id ts q.queue) (rw (decided.0) (rw kept refl)), decided.1)

  enqueue-IsDecided :
      (intent : Intent) (ts : ℕ)
      → not (intent.id == id) ≡ true
      → IsDecided id p (enqueue intent ts q).1
  unfolding enqueue
  enqueue-IsDecided intent ts h =
      write-IsDecided intent.id (enqueue intent ts q).0 (λ same. ground arith)

  apply-IsDecided : (op : Op) → spares id op ≡ true → IsDecided id p (apply op q)
  unfolding apply
  apply-IsDecided (enqueues intent ts) h = enqueue-IsDecided intent ts h
  apply-IsDecided (approves j ts) h = approve-IsDecided j ts
  apply-IsDecided (rejects j) h = reject-IsDecided j
  apply-IsDecided (expires ts) h = expire_old-IsDecided ts

apply_all-IsDecided :
    (id : ℕ) (p : PendingIntent) (ops : List Op) (q : ApprovalQueue)
    → IsDecided id p q
    → All (λ op. spares id op ≡ true) ops
    → IsDecided id p (apply_all ops q)
unfolding apply_all
apply_all-IsDecided id p [] q h k = h
apply_all-IsDecided id p (op ∷ ops) q h k =
    apply_all-IsDecided id p ops (apply op q) (apply-IsDecided id p q h op k.0) k.1

-- An intent that is approved, rejected or expired stays as it is through every later call that does
-- not enqueue its id anew: it is given out no second time, and cannot be rejected any more.
pub apply_all-decided :
    (id : ℕ) (p : PendingIntent) (ops : List Op) (q : ApprovalQueue) (ts : ℕ)
    → IsDecided id p q
    → All (λ op. spares id op ≡ true) ops
    → let q' = apply_all ops q in
      (lookup id q'.queue ≡ some p) × ((approve id ts q').0 ≡ none) × ((reject id q').0 ≡ false)
unfolding approve reject
apply_all-decided id p ops q ts h k =
    let (known, over) = apply_all-IsDecided id p ops q h k in (known, ground arith, ground arith)
