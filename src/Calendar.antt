-- ===== src/Calendar.antt =====
-- Trading calendars and the clock: engines/market/trading_clock.py.
pub mod Sessions
pub mod Weekday
pub mod Snapshot
pub mod Clock
mod Tests
