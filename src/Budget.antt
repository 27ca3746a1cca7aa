-- ===== src/Budget.antt =====
-- execution/budget.py: the daily ledger of LLM spending and the watcher that trips the kill switch.
--
-- The file holds what `_flush` wrote last. JSON and the text forms of dates and Decimals keep their
-- values exactly, so a file is the day that it describes, or unreadable, or missing.
pub mod Laws
pub mod Watcher
mod Examples
use multi_agent_llm_trading.Prelude.{
  ℕ, ◌+◌, ◌-◌, Bool, true, false, String, Option, none, some, List, [], ◌∷◌, push, leb, eqb,
  if◌then◌else◌,
}
use multi_agent_llm_trading.Types.{date_of}

pub record SpendEntry : Type 0 where
  pub ts : ℕ
  pub agent_id : String
  pub call_type : String
  pub cost_usd : ℕ

-- The JSON object of the file.
pub record Day : Type 0 where
  pub date : ℕ
  pub total_usd : ℕ
  pub entries : List SpendEntry

pub data SpendFile : Type 0 where
  missing corrupt : SpendFile
  written : Day → SpendFile

pub record BudgetLedger : Type 0 where
  pub limit : ℕ
  pub today : Option ℕ
  pub total : ℕ
  pub entries : List SpendEntry
  pub file : SpendFile

abbrev same_day : Option ℕ → ℕ → Bool
same_day none d = false
same_day (some t) d = eqb t d

-- `str(self._today or date.today())`, `clock_today` being the date by the system clock.
abbrev day_or : Option ℕ → ℕ → ℕ
day_or none clock_today = clock_today
day_or (some t) _ = t

unfoldable pub flush : ℕ → BudgetLedger → BudgetLedger
flush clock_today b = record b {
  file =
      SpendFile.written
        (record { date = day_or b.today clock_today; total_usd = b.total; entries = b.entries });
}

-- The day anew, with nothing spent.
abbrev cleared : ℕ → BudgetLedger → BudgetLedger
cleared day b = record b { today = some day; total = 0; entries = [] }

unfoldable pub ensure_date : ℕ → BudgetLedger → BudgetLedger
ensure_date day b = if same_day b.today day then b else cleared day b

unfoldable pub record_spend : ℕ → String → ℕ → String → ℕ → BudgetLedger → BudgetLedger
unfolding ensure_date flush
record_spend clock_today agent_id cost_usd call_type ts b =
    let b' = ensure_date (date_of ts) b in
    let entry : SpendEntry = record {
      ts = ts;
      agent_id = agent_id;
      call_type = call_type;
      cost_usd = cost_usd;
    } in
    flush clock_today (record b' { total = b'.total + cost_usd; entries = push b'.entries entry })

unfoldable pub reset_if_new_day : ℕ → ℕ → BudgetLedger → Bool × BudgetLedger
unfolding flush
reset_if_new_day clock_today day b =
    if same_day b.today day then (false, b) else (true, flush clock_today (cleared day b))

unfoldable pub today_spent : BudgetLedger → ℕ
today_spent b = b.total

-- max(limit - total, 0): subtraction that stops at 0.
unfoldable pub remaining : BudgetLedger → ℕ
remaining b = b.limit - b.total

unfoldable pub is_exhausted : BudgetLedger → Bool
is_exhausted b = leb b.limit b.total

-- `_load`, on the fields as `__init__` set them: a stale, corrupt or missing file changes nothing.
abbrev load_day : ℕ → SpendFile → BudgetLedger → BudgetLedger
load_day utc_today SpendFile.missing b = b
load_day utc_today SpendFile.corrupt b = b
load_day utc_today (SpendFile.written d) b =
    if eqb d.date utc_today
    then record b { today = some d.date; total = d.total_usd; entries = d.entries }
    else b

-- `BudgetLedger(path, daily_limit)`, over what the file holds.
unfoldable pub new_ledger : ℕ → ℕ → SpendFile → BudgetLedger
new_ledger utc_today limit file =
    load_day utc_today file
      (record { limit = limit; today = none; total = 0; entries = []; file = file })

-- The calls that change the ledger.
pub data Op : Type 0 where
  spend : (clock_today : ℕ) (agent_id : String) (cost_usd : ℕ) (call_type : String) (ts : ℕ) → Op
  rollover : (clock_today today : ℕ) → Op

unfoldable pub apply : Op → BudgetLedger → BudgetLedger
unfolding record_spend reset_if_new_day
apply (Op.spend clock a cost call ts) b = record_spend clock a cost call ts b
apply (Op.rollover clock d) b = (reset_if_new_day clock d b).1

unfoldable pub apply_all : List Op → BudgetLedger → BudgetLedger
apply_all [] b = b
apply_all (op ∷ ops) b = apply_all ops (apply op b)
