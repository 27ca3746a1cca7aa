-- ===== src/Clock/Calendar.antt =====
-- core/clock.py: the search for the next session.
use multi_agent_llm_trading.Prelude.{
  ℕ, zero, suc, ◌+◌, ◌-◌, ◌*◌, ◌≤◌, ◌<◌, ◌≡◌, ◌≢◌, ◌⊎◌, refl, sym, ap, ◌∙◌, inl, inr, Bool, true,
  false, ◌&&◌, Option, none, some, ltb, leb, eqb, if◌then◌else◌, nat_eq, Bool-cases, Option-cases,
  ◌==◌, arith,
}
use multi_agent_llm_trading.Prelude.Dict.{lookup, contains}
use multi_agent_llm_trading.Clock.{
  LocalTime, hour_us, open_time, weekday, is_trading_day, market_open, next_trading_day, next_open,
  nyse_holidays_2026, nyse_early_closes_2026, date_2026,
}

-- The days of 2026 and those just before.
abbrev is_found : Option ℕ → Bool
is_found none = false
is_found (some _) = true

abbrev found : ℕ → Bool
found i = is_found (next_trading_day 5 (20450 + i))

-- The search succeeds from each of the first `days` of them.
found_on_all : ℕ → Bool
found_on_all zero = true
found_on_all (suc days) = if found days then found_on_all days else false

found_on_all-found : (days i : ℕ) → i < days → found_on_all days ≡ true → found i ≡ true
unfolding found_on_all
found_on_all-found zero i early ok = absurd (omega arith)
found_on_all-found (suc days) i early ok = elim (Bool-cases (eqb i days)) [
  | inl last ↦ let here : days ≡ i = ground arith in rw (← here) (ground arith)
  | inr before ↦ found_on_all-found days i (ground arith) (ground arith)
]

found_2026 : found_on_all 370 ≡ true
unfolding found_on_all next_trading_day is_trading_day
found_2026 = refl

-- Out of the year only weekends are closed.
no_holiday : (d : ℕ) → (d < 20454) ⊎ (20818 < d) → contains d nyse_holidays_2026 ≡ false
no_holiday d h = ground arith

weekday_opens : (d : ℕ) → (d < 20454) ⊎ (20818 < d) → weekday d < 5 → is_trading_day d ≡ true
unfolding is_trading_day
weekday_opens d h w = rw (no_holiday d h) (ground arith)

found_outside : (d : ℕ) → (d < 20450) ⊎ (20818 < d) → next_trading_day 5 d ≢ none
unfolding next_trading_day
found_outside d h = ground (
  arith,
  weekday_opens d (ground arith),
  weekday_opens (d + 1) (ground arith),
  weekday_opens (d + 1 + 1) (ground arith),
)

found_inside : (d : ℕ) → 20450 ≤ d → d < 20820 → next_trading_day 5 d ≢ none
found_inside d low high e =
    let here : 20450 + (d - 20450) ≡ d = omega arith in
    let hit = found_on_all-found 370 (d - 20450) (omega arith) found_2026 in
    cc (hit, ap (λ x. is_found (next_trading_day 5 x)) here, ap is_found e)

found_always : (d : ℕ) → next_trading_day 5 d ≢ none
found_always d = elim (Bool-cases (ltb d 20450)) [
  | inl before ↦ found_outside d (inl (ground arith))
  | inr later ↦ elim (Bool-cases (ltb d 20820)) [
    | inl within ↦ found_inside d (ground arith) (ground arith)
    | inr after ↦ found_outside d (inr (ground arith))
  ]
]

-- What the loop returns: the first trading day from its start on.
next_trading_day-first :
    (fuel c d : ℕ)
    → next_trading_day fuel c ≡ some d
    → (c ≤ d)
      × (d < c + fuel)
      × (is_trading_day d ≡ true)
      × ((m : ℕ) → c ≤ m → m < d → is_trading_day m ≡ false)
unfolding next_trading_day
next_trading_day-first zero c d h = absurd (ground arith)
next_trading_day-first (suc fuel) c d h = elim (Bool-cases (is_trading_day c)) [
  | inl opens ↦
      let here : c ≡ d = ground arith in
      (omega arith, omega arith, rw (← here) opens, λ m low high. absurd (omega arith))
  | inr closed ↦
      let (low, high, opens, first) = next_trading_day-first fuel (c + 1) d (ground arith) in
      (
        omega arith,
        omega arith,
        opens,
        λ m low' high'. elim (Bool-cases (ltb c m)) [
          | inl further ↦ first m (ground arith) high'
          | inr same ↦ let here : c ≡ m = ground arith in rw (← here) closed
        ],
      )
]

abbrev pub Before : LocalTime → LocalTime → Type 0
Before a b = (a.date < b.date) ⊎ ((a.date ≡ b.date) × (a.time < b.time))

market_open-day :
    (m : LocalTime) → market_open m ≡ true → (is_trading_day m.date ≡ true) × (open_time ≤ m.time)
unfolding market_open
market_open-day m h = (ground arith, ground arith)

early_close_closed :
    (d hour : ℕ) → lookup d nyse_early_closes_2026 ≡ some hour → is_trading_day d ≡ false
unfolding is_trading_day
early_close_closed d hour h = elim (Bool-cases (d == date_2026 11 27)) [
  | inl e ↦ let day : d ≡ date_2026 11 27 = ground arith in rw day refl
  | inr e ↦ let day : d ≡ date_2026 12 24 = ground arith in rw day refl
]

opens_at_open_time :
    (d : ℕ) → is_trading_day d ≡ true → market_open (record { date = d; time = open_time }) ≡ true
unfolding market_open
opens_at_open_time d h = elim (Option-cases (lookup d nyse_early_closes_2026)) [
  | inl e ↦ rw (market_open, h, e) refl
  | inr (hour, e) ↦ let closed = early_close_closed d hour e in absurd (ground arith)
]

hours_lem :
    (now : LocalTime)
    → market_open now
      ≡ (is_trading_day now.date && (leb open_time now.time && ltb now.time (16 * hour_us)))
unfolding market_open
hours_lem now = elim (Bool-cases (is_trading_day now.date)) [
  | inr closed ↦ rw (market_open, closed) refl
  | inl open_day ↦ elim (Option-cases (lookup now.date nyse_early_closes_2026)) [
    | inl e ↦ rw (market_open, open_day, e) refl
    | inr (hour, e) ↦ absurd (cc (open_day, early_close_closed now.date hour e))
  ]
]

-- The market is open exactly on trading days from 09:30 until before 16:00. The closing hour of the
-- early-close table is never used: on its days the market is not open at any time.
pub market_open-hours :
    (now : LocalTime)
    → (market_open now
        ≡ (is_trading_day now.date && (leb open_time now.time && ltb now.time (16 * hour_us))))
      × ((contains now.date nyse_early_closes_2026 && market_open now) ≡ false)
unfolding market_open
market_open-hours now = (
  hours_lem now,
  elim (Option-cases (lookup now.date nyse_early_closes_2026)) [
    | inl e ↦ rw (contains, e) refl
    | inr (hour, e) ↦ rw (contains, e, market_open, early_close_closed now.date hour e) refl
  ],
)

next_open-today :
    (now : LocalTime)
    → (ltb now.time open_time && is_trading_day now.date) ≡ true
    → next_open 5 now ≡ some (record { date = now.date; time = open_time })
unfolding next_open
next_open-today now today = rw (next_open, today) refl

next_open-later :
    (now : LocalTime) (d : ℕ)
    → (ltb now.time open_time && is_trading_day now.date) ≡ false
    → next_trading_day 5 (now.date + 1) ≡ some d
    → next_open 5 now ≡ some (record { date = d; time = open_time })
unfolding next_open
next_open-later now d later e = rw (next_open, later, e) refl

-- Five rounds are enough for the loop of `next_open` at any time, and it returns a moment later than
-- now at which the market is open.
pub next_open-finds :
    (now : LocalTime)
    → (t : LocalTime) × (next_open 5 now ≡ some t) × (market_open t ≡ true) × Before now t
next_open-finds now = elim (Bool-cases (ltb now.time open_time && is_trading_day now.date)) [
  | inl today ↦ (
    record { date = now.date; time = open_time },
    next_open-today now today,
    opens_at_open_time now.date (ground arith),
    inr (refl, ground arith),
  )
  | inr later ↦ elim (Option-cases (next_trading_day 5 (now.date + 1))) [
    | inl none' ↦ absurd (found_always (now.date + 1) none')
    | inr (d, e) ↦
        let (low, high, opens, first) = next_trading_day-first 5 (now.date + 1) d e in
        (
          record { date = d; time = open_time },
          next_open-later now d later e,
          opens_at_open_time d opens,
          inl (omega arith),
        )
  ]
]

-- No session begins between now and the moment that `next_open` returns: at a time between them the
-- market is open only if it is today's session, whose 09:30 had come by now.
pub next_open-first :
    (now t m : LocalTime)
    → next_open 5 now ≡ some t
    → Before now m
    → Before m t
    → market_open m ≡ true
    → (m.date ≡ now.date) × (open_time ≤ now.time)
next_open-first now t m returned after before open_m =
    let (day, late) = market_open-day m open_m in
    elim (Bool-cases (ltb now.time open_time && is_trading_day now.date)) [
      | inl today ↦
          let same : some (record { date = now.date; time = open_time }) ≡ some t =
            sym (next_open-today now today) ∙ returned in
          absurd (ground arith)
      | inr later ↦ elim (Option-cases (next_trading_day 5 (now.date + 1))) [
        | inl none' ↦ absurd (found_always (now.date + 1) none')
        | inr (d, e) ↦
            let same : some (record { date = d; time = open_time }) ≡ some t =
              sym (next_open-later now d later e) ∙ returned in
            let (low, high, opens, first) = next_trading_day-first 5 (now.date + 1) d e in
            elim (Bool-cases (ltb now.date m.date)) [
              | inl further ↦
                  let shut = first m.date (ground arith) (ground arith) in absurd (cc (day, shut))
              | inr not_further ↦
                  let today : m.date ≡ now.date = ground arith in
                  let trading : is_trading_day now.date ≡ true = rw (← today) day in
                  (today, ground arith)
            ]
      ]
    ]
