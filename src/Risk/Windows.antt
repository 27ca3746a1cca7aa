-- ===== src/Risk/Windows.antt =====
-- The windows of the gate, after what opens them: a sale at a loss, and LETF openings.
use multi_agent_llm_trading.Prelude.{
  ℕ, ◌+◌, ◌≤◌, ◌<◌, ◌≡◌, ◌⊎◌, refl, inl, inr, Bool, true, false, String, some, List, [], ◌∷◌,
  length, keep, push, arith, string_eq, if◌then◌else◌, beq_refl, Option, none,
}
use multi_agent_llm_trading.Types.{AgentId, agent_id_eq, Intent, Position, AgentState, Lot, date_of}
use multi_agent_llm_trading.Tax.{WashSaleRecord, record_sale, is_blocked, loss_of, realized_pnl}
use multi_agent_llm_trading.Tax.Window.{record_sale_blocks, is_blocked-push}
use multi_agent_llm_trading.Risk.Policy.{is_opening, proxy_of, category_of}
use multi_agent_llm_trading.Risk.Gate.{
  RiskGate, LetfActivityRecord, check_intent, is_letf_intent, reopen_count, record_letf_open,
  is_recent,
}
use multi_agent_llm_trading.Risk.Safety.{check_intent-MayOpen}

true_or_not : (b : Bool) → (b ≡ true → ⊥) → b ≡ false
true_or_not true h = absurd (h refl)
true_or_not false h = refl

sale_blocks :
    (lot : Lot) (price day : ℕ) (rs : List WashSaleRecord) (d : ℕ)
    → lot.exit_price ≡ some price
    → lot.exit_date ≡ some day
    → price < lot.entry_price
    → lot.remaining_qty < lot.qty
    → day ≤ d
    → d ≤ day + 30
    → is_blocked lot.agent_id lot.symbol d (record_sale lot rs) ≡ true
sale_blocks lot price day rs d ep ed loss sold from to =
    let blocked = record_sale_blocks lot price day rs lot.agent_id lot.symbol d ep ed loss sold in
    ground (arith, blocked, beq_refl lot.agent_id, beq_refl lot.symbol)

-- The records after further sales.
abbrev pub record_sales : List Lot → List WashSaleRecord → List WashSaleRecord
record_sales [] rs = rs
record_sales (lot ∷ lots) rs = record_sales lots (record_sale lot rs)

blocked-push_loss :
    (loss : Option WashSaleRecord) (rs : List WashSaleRecord) (a : AgentId) (s : String) (d : ℕ)
    → is_blocked a s d rs ≡ true
    → is_blocked a s d (elim loss [ none ↦ rs | some r ↦ push rs r ]) ≡ true
blocked-push_loss none rs a s d h = h
blocked-push_loss (some r) rs a s d h = ground (arith, is_blocked-push a s d rs r)

blocked-record_sale :
    (lot : Lot) (rs : List WashSaleRecord) (a : AgentId) (s : String) (d : ℕ)
    → is_blocked a s d rs ≡ true
    → is_blocked a s d (record_sale lot rs) ≡ true
unfolding record_sale
blocked-record_sale lot rs = blocked-push_loss (loss_of lot (realized_pnl lot) lot.exit_date) rs

blocked-record_sales :
    (lots : List Lot) (rs : List WashSaleRecord) (a : AgentId) (s : String) (d : ℕ)
    → is_blocked a s d rs ≡ true
    → is_blocked a s d (record_sales lots rs) ≡ true
blocked-record_sales [] rs a s d h = h
blocked-record_sales (lot ∷ lots) rs a s d h =
    blocked-record_sales lots (record_sale lot rs) a s d (blocked-record_sale lot rs a s d h)

-- Once record_sale has been told of a lot that is sold at a loss, and of any further lots after it,
-- the agent of the lot is allowed no opening intent in its symbol, or in a symbol of which that is
-- the proxy, from the day of the sale to the thirtieth day after it.
pub record_sale-check_intent :
    (lot : Lot) (price day : ℕ) (rs : List WashSaleRecord) (later : List Lot) (intent : Intent)
    (st : AgentState) (gross : ℕ) (positions : List Position) (ts : ℕ) (g : RiskGate)
    → lot.exit_price ≡ some price
    → lot.exit_date ≡ some day
    → price < lot.entry_price
    → lot.remaining_qty < lot.qty
    → g.wash ≡ record_sales later (record_sale lot rs)
    → is_opening intent.action ≡ true
    → intent.agent_id ≡ lot.agent_id
    → (intent.symbol ≡ lot.symbol) ⊎ (proxy_of intent.symbol ≡ some lot.symbol)
    → day ≤ date_of ts
    → date_of ts ≤ day + 30
    → (check_intent intent st gross positions ts g).0.allowed ≡ false
record_sale-check_intent lot price day rs later intent st gross positions ts g ep ed loss sold wash
      opening agent symbol from to =
    true_or_not (check_intent intent st gross positions ts g).0.allowed (λ allowed.
      let open_ = check_intent-MayOpen intent st gross positions ts g opening allowed in
      let blocked =
        blocked-record_sales later (record_sale lot rs) lot.agent_id lot.symbol (date_of ts)
          (sale_blocks lot price day rs (date_of ts) ep ed loss sold from to) in
      elim symbol [
        | inl same ↦ let free = open_.not_washed in cc
        | inr proxy ↦ let free = open_.proxy_not_washed lot.symbol proxy in cc
      ])

keep-push :
    {A : Type 0} (test : A → Bool) (xs : List A) (x : A)
    → length (keep test (push xs x)) ≡ length (keep test xs) + (if test x then 1 else 0)
keep-push test [] x = ground arith
keep-push test (y ∷ ys) x = ground (arith, keep-push test ys x)

record_letf_open-activity :
    (a : AgentId) (s category : String) (d : ℕ) (g : RiskGate)
    → category_of s ≡ some category
    → (record_letf_open a s d g).letf_activity
      ≡ push g.letf_activity (record { agent_id = a; category = category; action_date = d })
unfolding record_letf_open
record_letf_open-activity a s category d g h = ground arith

-- An opening counts for its agent and its category, for as long as the window.
reopen_count-open :
    (a : AgentId) (s category : String) (d today : ℕ) (g : RiskGate)
    → category_of s ≡ some category
    → today ≤ d + 21
    → reopen_count a category today (record_letf_open a s d g).letf_activity
      ≡ reopen_count a category today g.letf_activity + 1
unfolding reopen_count
reopen_count-open a s category d today g h recent =
    let opened : LetfActivityRecord = record {
      agent_id = a;
      category = category;
      action_date = d;
    } in
    rw (record_letf_open-activity a s category d g h) (
      ground (
        arith,
        keep-push (is_recent a category today) g.letf_activity opened,
        beq_refl a,
        beq_refl category,
      ))

-- The gate after the openings of an agent, each a symbol and a day.
pub open_all : AgentId → List (String × ℕ) → RiskGate → RiskGate
open_all a [] g = g
open_all a ((s, d) ∷ opens) g = open_all a opens (record_letf_open a s d g)

abbrev pub AreRecent : String → ℕ → List (String × ℕ) → Type 0
AreRecent category today [] = Unit
AreRecent category today ((s, d) ∷ opens) =
    (category_of s ≡ some category) × (today ≤ d + 21) × AreRecent category today opens

reopen_count-open_all :
    (a : AgentId) (category : String) (today : ℕ) (opens : List (String × ℕ)) (g : RiskGate)
    → AreRecent category today opens
    → reopen_count a category today (open_all a opens g).letf_activity
      ≡ reopen_count a category today g.letf_activity + length opens
unfolding open_all
reopen_count-open_all a category today [] g h = omega arith
reopen_count-open_all a category today ((s, d) ∷ opens) g h = omega (
  arith,
  reopen_count-open_all a category today opens (record_letf_open a s d g) h.2,
  reopen_count-open a s category d today g h.0 h.1,
)

-- After three openings of an agent in one category of LETFs, in any of its symbols, the agent is
-- allowed no further one within 21 days of the earliest.
pub open_all-check_intent :
    (opens : List (String × ℕ)) (category : String) (intent : Intent) (st : AgentState) (gross : ℕ)
    (positions : List Position) (ts : ℕ) (g : RiskGate)
    → 3 ≤ length opens
    → AreRecent category (date_of ts) opens
    → is_opening intent.action ≡ true
    → is_letf_intent intent ≡ true
    → category_of intent.symbol ≡ some category
    → (check_intent intent st gross positions ts (open_all intent.agent_id opens g)).0.allowed
      ≡ false
open_all-check_intent opens category intent st gross positions ts g three recent opening letf same =
    let g' = open_all intent.agent_id opens g in
    true_or_not (check_intent intent st gross positions ts g').0.allowed (λ allowed.
      let open_ = check_intent-MayOpen intent st gross positions ts g' opening allowed in
      absurd (
        omega (
          arith,
          open_.letf_not_rotating category letf same,
          reopen_count-open_all intent.agent_id category (date_of ts) opens g recent,
        )))
