-- ===== src/PriceLimit/Rules.antt =====
-- engines/market/price_limit_rules.py. A code is the list of its digits, a rate a whole number of
-- millionths, a day its ordinal. The reading of a quote's keys is done: what it holds is given.
use stock_agent.Base.{
  ℕ, ◌/◌, Bool, true, false, not, ◌&&◌, ◌||◌, Option, none, some, List, [], ◌∷◌, ltb, leb, ◌==◌,
  if◌then◌else◌, or_default,
}

pub data Board : Type 0 where
  star chinext beijing main_board : Board

abbrev pub starts_with : List ℕ → List ℕ → Bool
starts_with [] code = true
starts_with (p ∷ ps) [] = false
starts_with (p ∷ ps) (c ∷ code) = (p == c) && starts_with ps code

unfoldable pub board_of : List ℕ → Board
board_of code =
    if starts_with (6 ∷ 8 ∷ 8 ∷ []) code
    then star
    else if starts_with (3 ∷ 0 ∷ 0 ∷ []) code || starts_with (3 ∷ 0 ∷ 1 ∷ []) code
    then chinext
    else if starts_with (9 ∷ 2 ∷ 0 ∷ []) code
        || starts_with (8 ∷ []) code
        || starts_with (4 ∷ []) code
    then beijing
    else main_board

pub data Stage : Type 0 where
  ipo_first_day relisting_first_day no_limit none_limit other_stage : Stage

-- A float as it is read: nan or infinite, below zero, or a number of millionths.
pub data RawRate : Type 0 where
  not_finite : RawRate
  negative : RawRate
  millionths : ℕ → RawRate

-- What the quote and the security's data hold.
pub record Payload : Type 0 where
  pub listing_stage : Option Stage
  pub limit_up_rate : Option RawRate
  pub limit_down_rate : Option RawRate
  pub risk_warning : Option Bool

pub data Version : Type 0 where
  of_stage quote_limit_rate star_20 chinext_20 bse_30 : Version
  main_board_st_before main_board_st_from main_board_10 : Version

pub record PriceLimitRule : Type 0 where
  pub board : Board
  pub limit_up_pct : Option ℕ
  pub limit_down_pct : Option ℕ
  pub has_price_limit : Bool
  pub version : Version

-- The ValueErrors.
pub data RuleError : Type 0 where
  incomplete_up incomplete_down non_finite invalid_up invalid_down : RuleError
  non_positive greater_than_100_percent : RuleError

pub data Resolved : Type 0 where
  rule : PriceLimitRule → Resolved
  invalid_rule : RuleError → Resolved

abbrev pub one : ℕ
one = 1000000

-- `_normalize_rate`
pub data Normalized : Type 0 where
  rate : ℕ → Normalized
  rejected : RuleError → Normalized

unfoldable pub normalize_rate : RawRate → Normalized
normalize_rate not_finite = rejected non_finite
normalize_rate negative = rejected non_positive
normalize_rate (millionths n) =
    let scaled = if ltb one n then n / 100 else n in
    if leb n 0
    then rejected non_positive
    else if ltb one scaled
    then rejected greater_than_100_percent
    else rate scaled

-- `_validated`; a rate of the model is finite.
unfoldable pub validated : PriceLimitRule → Resolved
validated r = if not r.has_price_limit then rule r else elim r.limit_up_pct [
  | none ↦ invalid_rule incomplete_up
  | some up ↦ elim r.limit_down_pct [
    | none ↦ invalid_rule incomplete_down
    | some down ↦
        if leb up 0
        then invalid_rule invalid_up
        else if leb down 0
        then invalid_rule invalid_down
        else rule r
  ]
]

-- A rule of both rates from two values: the first error is raised.
abbrev pub quoted : Board → Normalized → Normalized → Resolved
quoted board (rejected e) down = invalid_rule e
quoted board (rate up) (rejected e) = invalid_rule e
quoted board (rate up) (rate down) = validated (record {
  board = board;
  limit_up_pct = some up;
  limit_down_pct = some down;
  has_price_limit = true;
  version = quote_limit_rate;
})

-- Only the upper rate is given: the lower one is it, normalised, and normalised once more.
abbrev pub quoted_up : Board → Normalized → Resolved
quoted_up board (rejected e) = invalid_rule e
quoted_up board (rate n) = quoted board (rate n) (normalize_rate (millionths n))

-- `_quote_limit_rule`: a missing rate is taken from the other.
abbrev pub quote_rates : Board → Option RawRate → Option RawRate → Option Resolved
quote_rates board none none = none
quote_rates board none (some down) = some (quoted board (normalize_rate down) (normalize_rate down))
quote_rates board (some up) none = some (quoted_up board (normalize_rate up))
quote_rates board (some up) (some down) =
    some (quoted board (normalize_rate up) (normalize_rate down))

unfoldable pub quote_limit_rule : Board → Payload → Option Resolved
quote_limit_rule board p = quote_rates board p.limit_up_rate p.limit_down_rate

abbrev pub has_no_limit : Option Stage → Bool
has_no_limit none = false
has_no_limit (some other_stage) = false
has_no_limit (some s) = true

-- MAIN_BOARD_ST_10_EFFECTIVE_DATE, the 6th of July 2026.
abbrev pub st_10_effective : ℕ
st_10_effective = 739803

abbrev pub symmetric : Board → ℕ → Version → Resolved
symmetric board pct version = validated (record {
  board = board;
  limit_up_pct = some pct;
  limit_down_pct = some pct;
  has_price_limit = true;
  version = version;
})

-- The version of the rules for the board, the risk warning and the day.
unfoldable pub board_rule : Board → Bool → ℕ → Resolved
board_rule star risk day = symmetric star 200000 star_20
board_rule chinext risk day = symmetric chinext 200000 chinext_20
board_rule beijing risk day = symmetric beijing 300000 bse_30
board_rule main_board risk day =
    if risk && ltb day st_10_effective
    then symmetric main_board 50000 main_board_st_before
    else if risk
    then symmetric main_board 100000 main_board_st_from
    else symmetric main_board 100000 main_board_10

-- `is_risk_warning` and `listing_stage` are the arguments of the call.
unfoldable pub resolve_price_limit_rule :
    List ℕ → ℕ → Payload → Option Bool → Option Stage → Resolved
resolve_price_limit_rule code day p is_risk_warning listing_stage =
    let board = board_of code in
    let stage : Option Stage = elim listing_stage [ none ↦ p.listing_stage | some s ↦ some s ] in
    let risk : Bool = elim is_risk_warning [
      | none ↦ or_default p.risk_warning false
      | some b ↦ b
    ] in
    if has_no_limit stage
    then validated (record {
      board = board;
      limit_up_pct = none;
      limit_down_pct = none;
      has_price_limit = false;
      version = of_stage;
    })
    else or_default (quote_limit_rule board p) (board_rule board risk day)
