-- ===== src/Calendar/Tests.antt =====
-- The calendars around a weekend, and with a holiday.
use stock_agent.Base.{ℕ, ◌+◌, ◌≤◌, ◌<◌, ◌≡◌, refl, ◌↔◌, ◌≢◌, true, false, some, List, [], ◌∷◌}
use stock_agent.Base.Int.{pos, negsuc}
use stock_agent.Calendar.Sessions
use stock_agent.Calendar.Weekday
use stock_agent.Calendar.Snapshot
use stock_agent.Calendar.Clock

-- Day 5 is a Friday.
loops_terminate_example :
    (Weekday.normalize_search 7 ≢ Weekday.out_of_fuel)
    × (Weekday.next_search 7 ≢ Weekday.out_of_fuel)
    × (Weekday.previous_search 7 ≢ Weekday.out_of_fuel)
loops_terminate_example = Weekday.loops_terminate 7

abbrev listed : List Snapshot.CalendarSession
listed =
    record { day = 4; is_open = true; open_time = 570; close_time = 900 }
    ∷ record { day = 5; is_open = true; open_time = 570; close_time = 900 }
    ∷ record { day = 8; is_open = true; open_time = 570; close_time = 900 }
    ∷ record { day = 5; is_open = false; open_time = 570; close_time = 900 }
    ∷ []

-- The second row of day 5 closes it.
skips_the_holiday : (Snapshot.snapshot_calendar listed).next_session 4 ≡ some 8
unfolding Snapshot.snapshot_calendar
skips_the_holiday = refl

snapshot_calendar-Keeps_example : Sessions.Keeps (Snapshot.snapshot_calendar listed)
snapshot_calendar-Keeps_example = Snapshot.snapshot_calendar-Keeps listed

two_on : Sessions.advance_sessions Weekday.weekday_calendar 6 (pos 2) ≡ some 9
unfolding Sessions.advance_sessions Sessions.walk Weekday.search_back Weekday.search_on
two_on = refl

advance_and_back_example :
    (day : ℕ) × (Weekday.weekday_calendar.normalize 6 ≡ some day)
    × (Sessions.advance_sessions Weekday.weekday_calendar 9 (negsuc 1) ≡ some day)
    × (day + 2 ≤ 9)
advance_and_back_example =
    Sessions.advance_and_back Weekday.weekday_calendar Weekday.weekday_calendar-Keeps 6 1 9 two_on

abbrev friday_morning : Clock.Local
friday_morning = record { day = 5; time = 600 }

session_phase_known_example :
    (p : Clock.Phase) × (Clock.session_phase Weekday.weekday_calendar friday_morning ≡ some p)
    × ((p ≡ Clock.closed) ↔ (true ≡ false))
    × ((opening closing : ℕ)
        → Weekday.weekday_calendar.session_times 5 ≡ some (opening, closing)
        → true ≡ true
        → (p ≡ Clock.opened) ↔ ((opening ≤ 600) × (600 < closing)))
session_phase_known_example =
    Clock.session_phase_known Weekday.weekday_calendar friday_morning Weekday.weekday_calendar-Keeps
