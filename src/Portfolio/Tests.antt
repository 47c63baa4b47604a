-- ===== src/Portfolio/Tests.antt =====
-- The theorems on the construction of a portfolio at concrete states.
use stock_agent.Base.{ℕ, ◌+◌, ◌≤◌, ◌<◌, ◌≡◌, refl, ◌⊎◌, none, some, List, [], ◌∷◌, ◌/◌, arith}
use stock_agent.Portfolio.State.{
  State, sum_of, target_if, anyone, delta, delta_if, select, reject, insert, sort_by,
}
use stock_agent.Portfolio.Target.{
  Band, watch, starter, normal, high_conviction, Thresholds, initial_target, initial_target_cases,
  band_for_score,
}
use stock_agent.Portfolio.Limits.{
  cut_list, trim, in_group, group_keys, trim_groups, cap_field, Exposure, theme_of, sector_of,
  cluster_of, cap_exposures, scale_to_budget,
}
use stock_agent.Portfolio.Turnover.{hold_small, cancel_list, control_turnover}
use stock_agent.Portfolio.Caps.{limits_all_hold}
use stock_agent.Portfolio.Trades.{turnover_holds}

abbrev stock : ℕ → ℕ → ℕ → State
stock k score w = record {
  holding = record {
    symbol = k;
    theme = some 1;
    sector = none;
    cluster = some 2;
    score = some score;
    current_weight = w;
  };
  target_weight = w;
}

abbrev two_stocks : List State
two_stocks = stock 1 500000 600 ∷ stock 2 800000 450 ∷ []

abbrev caps : Exposure
caps = record {
  max_theme_weight = 1000;
  max_sector_weight = 5000;
  max_correlated_cluster_weight = 5000;
}

-- The stock with the lower score is cut to make the theme fit.
theme_after_caps :
    sum_of (target_if (in_group theme_of 1)) (scale_to_budget 9000 (cap_exposures caps two_stocks))
    ≡ 1000
unfolding sum_of cut_list trim group_keys trim_groups cap_field cap_exposures scale_to_budget select
    reject insert sort_by
theme_after_caps = refl

-- Stage 6 gives up the cut of 50 as too small to trade, and the theme is over its cap again.
theme_after_turnover :
    sum_of
      (target_if (in_group theme_of 1))
      (control_turnover 100 3000 (scale_to_budget 9000 (cap_exposures caps two_stocks)))
    ≡ 1050
unfolding sum_of cut_list trim group_keys trim_groups cap_field cap_exposures scale_to_budget select
    reject insert sort_by hold_small cancel_list control_turnover
theme_after_turnover = refl

limits_all_hold_example :
    let out = scale_to_budget 900 (cap_exposures caps two_stocks) in
    (sum_of (target_if (in_group theme_of 1)) out ≤ 1000)
    × (sum_of (target_if (in_group sector_of 1)) out ≤ 5000)
    × (sum_of (target_if (in_group cluster_of 1)) out ≤ 5000)
    × (sum_of (target_if anyone) out ≤ 900)
    × (sum_of (target_if (in_group cluster_of 2)) out
        ≤ sum_of (target_if (in_group cluster_of 2)) two_stocks)
limits_all_hold_example = limits_all_hold caps 900 0 (in_group cluster_of 2) two_stocks

abbrev to_trade : List State
to_trade =
    record (stock 1 500000 600) { target_weight = 0 }
    ∷ record (stock 2 800000 450) { target_weight = 700 }
    ∷ []

turnover_holds_example :
    (sum_of delta (control_turnover 100 300 to_trade) ≤ 300)
    × (sum_of (delta_if (in_group theme_of 1)) (control_turnover 100 300 to_trade)
        ≤ sum_of (delta_if (in_group theme_of 1)) to_trade)
turnover_holds_example = turnover_holds 100 300 (in_group theme_of 1) to_trade

abbrev thresholds : Thresholds
thresholds = record {
  starter_from = 600000;
  normal_from = 720000;
  high_conviction_from = 850000;
  reduce_below = 450000;
  exit_below = 300000;
}

abbrev sizing : Band → ℕ × ℕ
sizing watch = (0, 0)
sizing starter = (100, 300)
sizing normal = (300, 600)
sizing high_conviction = (600, 1000)

abbrev half : ℕ → ℕ
half w = w / 2

abbrev mean : ℕ → ℕ → ℕ
mean a b = (a + b) / 2

half_less : (w : ℕ) → half w ≤ w
half_less w = omega arith

initial_target_cases_holds :
    let target = (initial_target half mean thresholds sizing 1000 (some 800000) 100).0 in
    let band = sizing (band_for_score 800000 thresholds) in
    (target ≤ 100) ⊎ ((100 < band.0) × (target ≤ 1000) × (target ≤ mean band.0 band.1))
initial_target_cases_holds =
    initial_target_cases half mean thresholds sizing 1000 800000 100 half_less
