-- ===== src/Regime.antt =====
-- `PersistentRegimeStateMachine` of engines/regime/regime_state_machine.py, with the rows that it
-- keeps through storage/repositories/research_repository.py, for one market. Confidences are in
-- ten-thousandths, dates are numbers that `normalize_trading_date` has passed.
pub mod History
pub mod Switch
mod Tests
use stock_agent.Base.{
  ℕ, zero, suc, ◌+◌, max, Bool, true, false, not, ◌&&◌, ◌||◌, Option, none, some, List, [], ◌∷◌,
  ◌++◌, ltb, leb, ◌==◌, if◌then◌else◌, contains,
}

pub data Regime : Type 0 where
  high_position_retreat downtrend_market crowding_market rotation_market range_market : Regime
  other_regime : ℕ → Regime

abbrev pub code : Regime → ℕ
code high_position_retreat = 0
code downtrend_market = 1
code crowding_market = 2
code rotation_market = 3
code range_market = 4
code (other_regime n) = n + 5

abbrev pub same_regime : Regime → Regime → Bool
same_regime a b = code a == code b

-- DEFAULT_CONFIRMATION_DAYS, and the default of `.get`.
unfoldable pub default_days : Regime → ℕ
default_days high_position_retreat = 1
default_days downtrend_market = 2
default_days crowding_market = 2
default_days rotation_market = 2
default_days range_market = 3
default_days (other_regime n) = 2

-- DEFAULT_EMERGENCY_REGIMES
unfoldable pub default_emergency : Regime → Bool
default_emergency high_position_retreat = true
default_emergency downtrend_market = true
default_emergency _ = false

-- `__init__`: the days are the defaults with the caller's own put over them.
pub record Machine : Type 0 where
  pub confirmation_days : Regime → ℕ
  pub min_days_in_regime : ℕ
  pub switch_confidence_gap : ℕ
  pub emergency_regimes : Regime → Bool

pub data Reason : Type 0 where
  initial_classification same_trading_day confirmed_reaffirmed emergency_transition : Reason
  confirmation_threshold_met watch_switch : Reason

-- A row of `market_regime_state`.
pub record RegimeState : Type 0 where
  pub confirmed_regime : Regime
  pub confirmed_since : ℕ
  pub candidate_regime : Option Regime
  pub candidate_since : Option ℕ
  pub candidate_days : ℕ
  pub last_evaluated_date : Option ℕ
  pub confirmed_days : ℕ
  pub confidence : Option ℕ
  pub features : ℕ
  pub transition_reason : Reason

-- A row of the regime history.
pub record Entry : Type 0 where
  pub previous_regime : Option Regime
  pub new_regime : Regime
  pub started_at : ℕ
  pub ended_at : Option ℕ
  pub confidence : Option ℕ
  pub evidence : ℕ

pub record Store : Type 0 where
  pub state : Option RegimeState
  pub history : List Entry

abbrev pub is_open : Entry → Bool
is_open e = elim e.ended_at [ none ↦ true | some day ↦ false ]

abbrev later_of : ℕ → Option ℕ → ℕ
later_of a none = a
later_of a (some b) = max a b

-- ORDER BY started_at DESC, over the open entries.
abbrev pub latest_start : List Entry → Option ℕ
latest_start [] = none
latest_start (e ∷ es) =
    let rest = latest_start es in if is_open e then some (later_of e.started_at rest) else rest

abbrev pub close_start : ℕ → ℕ → List Entry → List Entry
close_start start day [] = []
close_start start day (e ∷ es) =
    let rest = close_start start day es in
    if is_open e && e.started_at == start then record e { ended_at = some day } ∷ es else e ∷ rest

unfoldable pub close_active_history : ℕ → List Entry → List Entry
close_active_history day h = elim (latest_start h) [
  | none ↦ h
  | some start ↦ close_start start day h
]

-- The arguments of one call of `advance`.
pub record Signal : Type 0 where
  pub candidate : Regime
  pub trade_date : ℕ
  pub confidence : Option ℕ
  pub features : ℕ

pub data SwitchStatus : Type 0 where
  stable watching confirmed_switch : SwitchStatus

-- The parts of the response that are not read off the stored state.
pub record Response : Type 0 where
  pub previous_regime : Option Regime
  pub candidate_regime : Regime
  pub switch_status : SwitchStatus
  pub switched : Bool

abbrev pub same_option : Option Regime → Regime → Bool
same_option none r = false
same_option (some c) r = same_regime c r

abbrev pub on_date : Option ℕ → ℕ → Bool
on_date none day = false
on_date (some d) day = d == day

-- int(x or 1)
abbrev pub or_one : ℕ → ℕ
or_one zero = 1
or_one (suc n) = suc n

abbrev pub first_entry : Option Regime → Signal → Entry
first_entry previous g = record {
  previous_regime = previous;
  new_regime = g.candidate;
  started_at = g.trade_date;
  ended_at = none;
  confidence = g.confidence;
  evidence = g.features;
}

abbrev pub first_state : Signal → RegimeState
first_state g = record {
  confirmed_regime = g.candidate;
  confirmed_since = g.trade_date;
  candidate_regime = none;
  candidate_since = none;
  candidate_days = 0;
  last_evaluated_date = some g.trade_date;
  confirmed_days = 1;
  confidence = g.confidence;
  features = g.features;
  transition_reason = initial_classification;
}

abbrev pub confidence_covers : ℕ → Option ℕ → Option ℕ → Bool
confidence_covers gap none old = true
confidence_covers gap (some new) none = true
confidence_covers gap (some new) (some old) = leb (old + gap) new

-- The state once the candidate has been counted.
unfoldable pub count_candidate : Signal → RegimeState → RegimeState
count_candidate g s =
    if same_option s.candidate_regime g.candidate
    then record s { candidate_days = s.candidate_days + 1 }
    else record s {
      candidate_regime = some g.candidate;
      candidate_since = some g.trade_date;
      candidate_days = 1;
    }

unfoldable pub may_switch : Machine → Signal → RegimeState → Bool
may_switch m g s =
    let emergency = m.emergency_regimes g.candidate in
    leb (m.confirmation_days g.candidate) s.candidate_days
    && (emergency || confidence_covers m.switch_confidence_gap g.confidence s.confidence)
    && (emergency || leb m.min_days_in_regime (or_one s.confirmed_days))

abbrev switched_state : Machine → Signal → RegimeState → RegimeState
switched_state m g s = record s {
  confirmed_regime = g.candidate;
  confirmed_since = g.trade_date;
  candidate_regime = none;
  candidate_since = none;
  candidate_days = 0;
  confirmed_days = 1;
  confidence = g.confidence;
  transition_reason =
      if m.emergency_regimes g.candidate then emergency_transition else confirmation_threshold_met;
}

-- The part of `advance` for a candidate that differs from the confirmed regime, on a new day.
unfoldable pub challenge : Machine → Signal → RegimeState → List Entry → Store × Response
unfolding count_candidate may_switch close_active_history
challenge m g s h =
    let s' = count_candidate g s in
    if may_switch m g s'
    then (
      record {
        state = some (switched_state m g s');
        history =
            close_active_history g.trade_date h ++ first_entry (some s.confirmed_regime) g ∷ [];
      },
      record {
        previous_regime = some s.confirmed_regime;
        candidate_regime = g.candidate;
        switch_status = confirmed_switch;
        switched = true;
      },
    )
    else (
      record { state = some (record s' { transition_reason = watch_switch }); history = h },
      record {
        previous_regime = some s.confirmed_regime;
        candidate_regime = g.candidate;
        switch_status = watching;
        switched = false;
      },
    )

abbrev reaffirmed : Signal → RegimeState → RegimeState
reaffirmed g s = record s {
  candidate_regime = none;
  candidate_since = none;
  candidate_days = 0;
  confidence = g.confidence;
  transition_reason = confirmed_reaffirmed;
}

-- A first call on a new day.
abbrev new_day : Signal → RegimeState → RegimeState
new_day g s = record s {
  features = g.features;
  last_evaluated_date = some g.trade_date;
  confirmed_days = or_one s.confirmed_days + 1;
}

abbrev shown_candidate : Option Regime → Regime → Regime
shown_candidate none r = r
shown_candidate (some c) r = c

unfoldable pub advance_from : Machine → Signal → RegimeState → List Entry → Store × Response
unfolding challenge
advance_from m g s h =
    if on_date s.last_evaluated_date g.trade_date
    then (
      record {
        state = some (record s { features = g.features; transition_reason = same_trading_day });
        history = h;
      },
      record {
        previous_regime = some s.confirmed_regime;
        candidate_regime = shown_candidate s.candidate_regime g.candidate;
        switch_status = if same_regime g.candidate s.confirmed_regime then stable else watching;
        switched = false;
      },
    )
    else if same_regime g.candidate s.confirmed_regime
    then (
      record { state = some (reaffirmed g (new_day g s)); history = h },
      record {
        previous_regime = some s.confirmed_regime;
        candidate_regime = g.candidate;
        switch_status = stable;
        switched = false;
      },
    )
    else challenge m g (new_day g s) h

unfoldable pub advance : Machine → Signal → Store → Store × Response
unfolding advance_from
advance m g store = elim store.state [
  | none ↦ (
    record { state = some (first_state g); history = store.history ++ first_entry none g ∷ [] },
    record {
      previous_regime = none;
      candidate_regime = g.candidate;
      switch_status = stable;
      switched = true;
    },
  )
  | some s ↦ advance_from m g s store.history
]
