-- ===== src/Calendar/Weekday.antt =====
-- `WeekdayTradingCalendar` of engines/market/trading_clock.py. Its `while` loops run on fuel. The
-- days have no upper end: the OverflowError of a search that passes `date.max` is left out.
use stock_agent.Base.{
  ℕ, zero, suc, ◌+◌, ◌-◌, ◌%◌, ◌≤◌, ◌<◌, ◌≡◌, subst, ◌≢◌, ◌⊎◌, true, false, Option, none, some,
  arith, leb, ltb, if◌then◌else◌, Bool-cases, inl, inr,
}
use stock_agent.Calendar.Sessions.{TradingCalendar, IsNext, IsPrevious, Keeps}

-- `date.weekday` of the ordinal: day 1 was a Monday.
abbrev pub weekday : ℕ → ℕ
weekday day = (day + 6) % 7

-- A run of a loop: the day it stops at, the end of the calendar (OverflowError), or fuel spent.
pub data Search : Type 0 where
  found : ℕ → Search
  overflow : Search
  out_of_fuel : Search

-- `while day.weekday() >= 5: day -= timedelta(days=1)`; there is no day before 1.
unfoldable pub search_back : ℕ → ℕ → Search
search_back zero day = out_of_fuel
search_back (suc fuel) day =
    let rest = search_back fuel (day - 1) in
    if leb 5 (weekday day) then (if leb day 1 then overflow else rest) else found day

-- `while day.weekday() >= 5: day += timedelta(days=1)`
unfoldable pub search_on : ℕ → ℕ → Search
search_on zero day = out_of_fuel
search_on (suc fuel) day =
    let rest = search_on fuel (day + 1) in if leb 5 (weekday day) then rest else found day

abbrev pub fuel : ℕ
fuel = 3

abbrev pub day_of : Search → Option ℕ
day_of (found d) = some d
day_of _ = none

abbrev pub normalize_search : ℕ → Search
normalize_search value = search_back fuel value

abbrev pub next_search : ℕ → Search
next_search value = search_on fuel (value + 1)

-- There is no day before 1.
abbrev pub previous_search : ℕ → Search
previous_search value = if leb value 1 then overflow else search_back fuel (value - 1)

abbrev pub weekday_calendar : TradingCalendar
weekday_calendar = record {
  is_trading_day = λ day. ltb (weekday day) 5;
  normalize = λ value. day_of (normalize_search value);
  next_session = λ value. day_of (next_search value);
  previous_session = λ value. day_of (previous_search value);
  session_times = λ day. some (570, 900);
}

-- Three turns are enough for every loop of the calendar, from whatever day it starts.
pub loops_terminate :
    (value : ℕ)
    → (normalize_search value ≢ out_of_fuel)
      × (next_search value ≢ out_of_fuel)
      × (previous_search value ≢ out_of_fuel)
unfolding search_back search_on
loops_terminate value = ground arith

next_bounds :
    (d e : ℕ)
    → day_of (next_search d) ≡ some e
    → (weekday e < 5)
      × (d < e)
      × (e ≤ d + 3)
      × (e ≡ d + 1 ⊎ 5 ≤ weekday (d + 1))
      × (e ≤ d + 2 ⊎ 5 ≤ weekday (d + 2))
unfolding search_on
next_bounds d e h = ground arith

previous_bounds :
    (d e : ℕ)
    → day_of (search_back fuel d) ≡ some e
    → (weekday e < 5)
      × (e ≤ d)
      × (d ≤ e + 2)
      × (d ≡ e ⊎ 5 ≤ weekday d)
      × (d ≤ e + 1 ⊎ 5 ≤ weekday (d - 1))
unfolding search_back
previous_bounds d e h = ground arith

previous_exists : (d x : ℕ) → x ≤ d → weekday x < 5 → day_of (search_back fuel d) ≢ none
unfolding search_back
previous_exists d x l t h = ground arith

next_exists : (d : ℕ) → day_of (next_search d) ≢ none
unfolding search_on
next_exists d h = ground arith

is_weekday : (d : ℕ) → weekday d < 5 → ltb (weekday d) 5 ≡ true
is_weekday d h = ground arith

is_weekend : (d : ℕ) → 5 ≤ weekday d → ltb (weekday d) 5 ≡ false
is_weekend d h = ground arith

weekday_after :
    (d e : ℕ)
    → weekday_calendar.next_session d ≡ some e
    → IsNext weekday_calendar.is_trading_day d e
weekday_after d e h =
    let b = next_bounds d e h in
    record {
      opens = is_weekday e b.0;
      later = b.1;
      first = λ x l r. is_weekend x (ground (arith, b.1, b.2, b.3, b.4));
    }

weekday_up_to :
    (d e : ℕ)
    → weekday_calendar.normalize d ≡ some e
    → IsPrevious weekday_calendar.is_trading_day (suc d) e
weekday_up_to d e h =
    let b = previous_bounds d e h in
    record {
      opens = is_weekday e b.0;
      earlier = omega (arith, b.1);
      last = λ x l r. is_weekend x (ground (arith, b.1, b.2, b.3, b.4));
    }

earlier_nearest :
    (d e : ℕ)
    → weekday_calendar.previous_session d ≡ some e
    → IsPrevious weekday_calendar.is_trading_day d e
earlier_nearest d e h = elim (Bool-cases (leb d 1)) [
  | inl low ↦ let clash : none ≡ some e = rw low at h in cc
  | inr high ↦
      let whole : suc (d - 1) ≡ d = ground arith in
      subst (λ x. IsPrevious weekday_calendar.is_trading_day x e) whole
        (weekday_up_to (d - 1) e (rw high at h))
]

earlier_exists : (d x : ℕ) → x < d → weekday x < 5 → weekday_calendar.previous_session d ≢ none
earlier_exists d x l t h = elim (Bool-cases (leb d 1)) [
  | inl low ↦ ground arith
  | inr high ↦ previous_exists (d - 1) x (ground arith) t (rw high at h)
]

-- The weekday calendar keeps the contract of a calendar on every date.
pub weekday_calendar-Keeps : Keeps weekday_calendar
weekday_calendar-Keeps = record {
  next_nearest = weekday_after;
  next_exists = λ d x l t. next_exists d;
  previous_nearest = earlier_nearest;
  previous_exists = λ d x l t. earlier_exists d x l (ground arith);
  normal_nearest = weekday_up_to;
  normal_exists = λ d x l t. previous_exists d x l (ground arith);
  times_known = λ d t e. cc;
}
