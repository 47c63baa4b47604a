-- ===== src/Calendar/Clock.antt =====
-- `TradingClock` of engines/market/trading_clock.py. The conversion of an instant to local time
-- is the time zone database's: an instant is given as its local day and its local time.
use stock_agent.Base.{
  ℕ, ◌≤◌, ◌<◌, ◌≡◌, ◌↔◌, inl, inr, true, false, not, Option, none, some, arith, leb, ltb,
  if◌then◌else◌, Option-cases, Bool-cases,
}
use stock_agent.Calendar.Sessions.{TradingCalendar, Keeps, normalize_same}

pub record Local : Type 0 where
  pub day : ℕ
  pub time : ℕ

pub data Phase : Type 0 where
  closed pre_open opened after_close : Phase

unfoldable pub current_trading_session : TradingCalendar → Local → Option ℕ
current_trading_session c now = c.normalize now.day

unfoldable pub session_phase : TradingCalendar → Local → Option Phase
unfolding current_trading_session
session_phase c now =
    if not (c.is_trading_day now.day) then some closed else elim (current_trading_session c now) [
      | none ↦ none
      | some session ↦ elim (c.session_times session) [
        | none ↦ none
        | some (opening, closing) ↦
            if ltb now.time opening
            then some pre_open
            else if leb closing now.time
            then some after_close
            else some opened
      ]
    ]

-- On a calendar that keeps its contract the phase is always known. It is CLOSED exactly off the
-- trading days; on one it compares the time with the opening and the closing of that very day,
-- and is OPEN exactly from the opening to before the closing.
pub session_phase_known :
    (c : TradingCalendar) (now : Local)
    → Keeps c
    → (p : Phase) × (session_phase c now ≡ some p)
      × ((p ≡ closed) ↔ (c.is_trading_day now.day ≡ false))
      × ((opening closing : ℕ)
          → c.session_times now.day ≡ some (opening, closing)
          → c.is_trading_day now.day ≡ true
          → (p ≡ opened) ↔ ((opening ≤ now.time) × (now.time < closing)))
unfolding session_phase
session_phase_known c now k = elim (Bool-cases (c.is_trading_day now.day)) [
  | inr off ↦ (closed, ground arith, ground arith, λ o x e t. ground arith)
  | inl on ↦ elim (Option-cases (c.session_times now.day)) [
    | inl missing ↦ absurd (k.times_known now.day on missing)
    | inr ((opening, closing), times) ↦
        let own = normalize_same c k now.day on in
        let p =
          if ltb now.time opening
          then pre_open
          else if leb closing now.time
          then after_close
          else opened in
        (p, ground (arith, own, times), ground arith, λ o x e t. ground (arith, own, times))
  ]
]
