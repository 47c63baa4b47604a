-- ===== src/Regime/Tests.antt =====
-- The theorems on regimes at concrete signals.
use stock_agent.Base.{ℕ, ◌≡◌, refl, ◌≢◌, ◌⊎◌, true, false, none, some, [], ◌∷◌, arith}
use stock_agent.Regime.{
  Regime, crowding_market, range_market, high_position_retreat, code, Machine, RegimeState, Store,
  Signal, advance, default_days, default_emergency, first_state, first_entry,
}
use stock_agent.Regime.History.{IsSound, unused, advance_all, advance_all-IsSound}
use stock_agent.Regime.Switch.{
  confirmed, same_day_changes_nothing, Warrants, advance_cases, needs_confirmation_days,
}

abbrev machine : Machine
machine = record {
  confirmation_days = default_days;
  min_days_in_regime = 2;
  switch_confidence_gap = 800;
  emergency_regimes = default_emergency;
}

abbrev signal : Regime → ℕ → Signal
signal r day = record { candidate = r; trade_date = day; confidence = some 6000; features = 0 }

abbrev no_rows : Store
no_rows = record { state = none; history = [] }

abbrev first_day : Store
first_day = record {
  state = some (first_state (signal crowding_market 1));
  history = first_entry none (signal crowding_market 1) ∷ [];
}

advance_all-IsSound_example :
    IsSound (advance_all machine (signal crowding_market 1 ∷ signal range_market 2 ∷ []) no_rows)
advance_all-IsSound_example =
    advance_all-IsSound machine (signal crowding_market 1 ∷ signal range_market 2 ∷ []) no_rows
      (unused refl refl)

same_day_changes_nothing_holds :
    let store' = (advance machine (signal range_market 1) first_day).0 in
    (confirmed store' ≡ confirmed first_day)
    × (store'.history ≡ first_day.history)
    × ((advance machine (signal range_market 1) first_day).1.switched ≡ false)
    × ((s' : RegimeState)
        → store'.state ≡ some s'
        → (s'.candidate_regime ≡ none)
          × (s'.candidate_days ≡ 0)
          × (s'.confirmed_days ≡ 1)
          × (s'.confidence ≡ some 6000))
same_day_changes_nothing_holds =
    same_day_changes_nothing machine (signal range_market 1) first_day
      (first_state (signal crowding_market 1)) refl refl

abbrev fall : Signal
fall = signal high_position_retreat 2

advance_cases_holds :
    ((confirmed (advance machine fall first_day).0 ≡ confirmed first_day)
      × ((advance machine fall first_day).1.switched ≡ false))
    ⊎ ((confirmed (advance machine fall first_day).0 ≡ some (code high_position_retreat))
        × ((advance machine fall first_day).1.switched ≡ true)
        × Warrants machine fall (first_state (signal crowding_market 1)))
advance_cases_holds =
    advance_cases machine fall first_day (first_state (signal crowding_market 1)) refl

needs_confirmation_days_holds :
    confirmed (advance_all machine (signal range_market 2 ∷ signal range_market 3 ∷ []) first_day)
    ≢ some (code range_market)
unfolding default_days
needs_confirmation_days_holds =
    needs_confirmation_days machine range_market
      (signal range_market 2 ∷ signal range_market 3 ∷ []) first_day
      (first_state (signal crowding_market 1)) refl refl (omega arith) (omega arith)
