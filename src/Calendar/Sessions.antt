-- ===== src/Calendar/Sessions.antt =====
-- The protocol `TradingCalendar` of engines/market/trading_clock.py with what its clients rely on,
-- and `advance_sessions`, which the calendars share word by word. A day is its ordinal
-- (`date.toordinal`), 0 is no date; `none` is CalendarUnavailable or OverflowError.
use stock_agent.Base.{
  ℕ, zero, suc, ◌+◌, ◌≤◌, ◌<◌, ◌≡◌, refl, subst, ◌≢◌, inl, inr, Bool, true, false, Option, none,
  some, arith, Option-cases,
}
use stock_agent.Base.Int.{ℤ, pos, negsuc}

pub record TradingCalendar : Type 0 where
  pub is_trading_day : ℕ → Bool
  pub normalize : ℕ → Option ℕ
  pub next_session : ℕ → Option ℕ
  pub previous_session : ℕ → Option ℕ
  pub session_times : ℕ → Option (ℕ × ℕ)

-- `e` is the first trading day after `d`.
pub record IsNext (trading : ℕ → Bool) (d e : ℕ) : Type 0 where
  pub opens : trading e ≡ true
  pub later : d < e
  pub first : (x : ℕ) → d < x → x < e → trading x ≡ false

-- `e` is the last trading day before `d`.
pub record IsPrevious (trading : ℕ → Bool) (d e : ℕ) : Type 0 where
  pub opens : trading e ≡ true
  pub earlier : e < d
  pub last : (x : ℕ) → e < x → x < d → trading x ≡ false

-- The contract of a calendar: each search gives the nearest trading day on its side, and fails
-- only where there is none.
pub record Keeps (c : TradingCalendar) : Type 0 where
  pub next_nearest : (d e : ℕ) → c.next_session d ≡ some e → IsNext c.is_trading_day d e
  pub next_exists : (d x : ℕ) → d < x → c.is_trading_day x ≡ true → c.next_session d ≢ none
  pub previous_nearest : (d e : ℕ) → c.previous_session d ≡ some e → IsPrevious c.is_trading_day d e
  pub previous_exists : (d x : ℕ) → x < d → c.is_trading_day x ≡ true → c.previous_session d ≢ none
  pub normal_nearest : (d e : ℕ) → c.normalize d ≡ some e → IsPrevious c.is_trading_day (suc d) e
  pub normal_exists : (d x : ℕ) → x ≤ d → c.is_trading_day x ≡ true → c.normalize d ≢ none
  pub times_known : (d : ℕ) → c.is_trading_day d ≡ true → c.session_times d ≢ none

-- `for _ in range(n): day = step(day)`, where a step may raise.
unfoldable pub walk : (ℕ → Option ℕ) → ℕ → ℕ → Option ℕ
walk step zero d = some d
walk step (suc n) d = elim (step d) [ none ↦ none | some e ↦ walk step n e ]

-- `step` and `abs(sessions)`.
unfoldable pub advance_sessions : TradingCalendar → ℕ → ℤ → Option ℕ
advance_sessions c value sessions = elim (c.normalize value) [
  | none ↦ none
  | some day ↦ elim sessions [
    | pos n ↦ walk c.next_session n day
    | negsuc n ↦ walk c.previous_session (suc n) day
  ]
]

walk-step :
    (step : ℕ → Option ℕ) (n d e f : ℕ)
    → walk step n d ≡ some e
    → step e ≡ some f
    → walk step (suc n) d ≡ some f
unfolding walk
walk-step step zero d e f h s = let same : d ≡ e = cc in rw same (rw (s, walk) refl)
walk-step step (suc n) d e f h s = elim (Option-cases (step d)) [
  | inl x ↦ let clash : none ≡ some e = rw (x, walk) at h in cc
  | inr (g, x) ↦ rw (x, walk) (walk-step step n g e f (rw (x, walk) at h) s)
]

module _ (c : TradingCalendar) (k : Keeps c) where
  -- Back from the next session of a trading day is that day.
  pub previous-next :
      (d e : ℕ)
      → c.is_trading_day d ≡ true
      → c.next_session d ≡ some e
      → c.previous_session e ≡ some d
  previous-next d e t h =
      let n = k.next_nearest d e h in
      elim (Option-cases (c.previous_session e)) [
        | inl x ↦ absurd (k.previous_exists e d n.later t x)
        | inr (f, x) ↦
            let p = k.previous_nearest e f x in
            ground (arith, n.first f, n.opens, n.later, p.last d, p.opens, p.earlier)
      ]

  -- And on from the previous session of a trading day.
  pub next-previous :
      (d e : ℕ)
      → c.is_trading_day d ≡ true
      → c.previous_session d ≡ some e
      → c.next_session e ≡ some d
  next-previous d e t h =
      let p = k.previous_nearest d e h in
      elim (Option-cases (c.next_session e)) [
        | inl x ↦ absurd (k.next_exists e d p.earlier t x)
        | inr (f, x) ↦
            let n = k.next_nearest e f x in
            ground (arith, n.first d, n.opens, n.later, p.last f, p.opens, p.earlier)
      ]

  -- A trading day is its own session.
  pub normalize_same : (d : ℕ) → c.is_trading_day d ≡ true → c.normalize d ≡ some d
  normalize_same d t = elim (Option-cases (c.normalize d)) [
    | inl x ↦ absurd (k.normal_exists d d (omega arith) t x)
    | inr (e, x) ↦ let p = k.normal_nearest d e x in ground (arith, p.last d, p.opens, p.earlier)
  ]

  walk_back :
      (n d e : ℕ)
      → c.is_trading_day d ≡ true
      → walk c.next_session n d ≡ some e
      → (c.is_trading_day e ≡ true) × (d + n ≤ e) × (walk c.previous_session n e ≡ some d)
  unfolding walk
  walk_back zero d e t h =
      let same : d ≡ e = cc in
      subst (λ x. (c.is_trading_day x ≡ true) × (d + 0 ≤ x) × (some x ≡ some d)) same
        (t, omega arith, refl)
  walk_back (suc n) d e t h = elim (Option-cases (c.next_session d)) [
    | inl x ↦ let clash : none ≡ some e = rw (x, walk) at h in cc
    | inr (f, x) ↦
        let n' = k.next_nearest d f x in
        let (te, far, back) = walk_back n f e n'.opens (rw (x, walk) at h) in
        (
          te,
          omega (arith, n'.later),
          walk-step c.previous_session n e f d back (previous-next d f t x),
        )
  ]

  -- Going on by some sessions and back by as many leads to the session of the start, and each
  -- session is at least a day.
  pub advance_and_back :
      (value n e : ℕ)
      → advance_sessions c value (pos (suc n)) ≡ some e
      → (day : ℕ) × (c.normalize value ≡ some day)
        × (advance_sessions c e (negsuc n) ≡ some day)
        × (day + suc n ≤ e)
  unfolding advance_sessions
  advance_and_back value n e h = elim (Option-cases (c.normalize value)) [
    | inl x ↦ let clash : none ≡ some e = rw (x, advance_sessions) at h in cc
    | inr (day, x) ↦
        let p = k.normal_nearest value day x in
        let (te, far, back) = walk_back (suc n) day e p.opens (rw (x, advance_sessions) at h) in
        (day, x, rw (normalize_same e te, advance_sessions) back, far)
  ]
