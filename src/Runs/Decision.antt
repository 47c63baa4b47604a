-- ===== src/Runs/Decision.antt =====
-- `DecisionRun` of app/domain/decision/run.py.
use stock_agent.Base.{
  ℕ, suc, ◌+◌, ◌≡◌, refl, ap, Bool, true, false, not, ◌&&◌, inl, inr, Option, none, some, List, [],
  ◌∷◌, arith, if◌then◌else◌, Bool-cases, is_truthy, length,
}

pub data State : Type 0 where
  received bundle_frozen specialists_completed formal_calculated governed finalized published
        failed :
      State

-- `_TRANSITIONS`.
unfoldable pub allows : State → State → Bool
allows received bundle_frozen = true
allows bundle_frozen specialists_completed = true
allows specialists_completed formal_calculated = true
allows formal_calculated governed = true
allows governed finalized = true
allows finalized published = true
allows received failed = true
allows bundle_frozen failed = true
allows specialists_completed failed = true
allows formal_calculated failed = true
allows governed failed = true
allows _ _ = false

pub record DecisionRun : Type 0 where
  pub decision_id : ℕ
  pub request_id : ℕ
  pub state : State
  pub version : ℕ
  pub bundle_id : Option ℕ
  pub bundle_hash : Option ℕ
  pub formal_result_hash : Option ℕ
  pub governance_hash : Option ℕ
  pub final_response_json : Option ℕ
  pub final_response_hash : Option ℕ
  pub lineage_json : Option ℕ
  pub execution_authorization_json : Option ℕ
  pub snapshot_id : Option ℕ
  pub readiness_snapshot : Option ℕ
  pub last_error_code : Option ℕ
  pub updated_at : ℕ

-- A run as the constructor leaves it.
abbrev pub new_run : ℕ → ℕ → ℕ → DecisionRun
new_run decision_id request_id now = record {
  decision_id = decision_id;
  request_id = request_id;
  state = received;
  version = 0;
  bundle_id = none;
  bundle_hash = none;
  formal_result_hash = none;
  governance_hash = none;
  final_response_json = none;
  final_response_hash = none;
  lineage_json = none;
  execution_authorization_json = none;
  snapshot_id = none;
  readiness_snapshot = none;
  last_error_code = none;
  updated_at = now;
}

-- `none` is the ValueError INVALID_DECISION_TRANSITION.
unfoldable pub transition : State → Option ℕ → ℕ → DecisionRun → Option DecisionRun
transition target error_code now r =
    if allows r.state target
    then some (record r {
      state = target;
      version = r.version + 1;
      last_error_code = error_code;
      updated_at = now;
    })
    else none

abbrev is_finalized : State → Bool
is_finalized finalized = true
is_finalized _ = false

unfoldable pub execution_eligible : DecisionRun → Bool
execution_eligible r = is_finalized r.state && not (is_truthy r.last_error_code)

-- One call of `transition`.
pub record Move : Type 0 where
  pub target : State
  pub error_code : Option ℕ
  pub now : ℕ

-- The calls in a row, up to the first that raises.
unfoldable pub transitions : List Move → DecisionRun → Option DecisionRun
transitions [] r = some r
transitions (m ∷ ms) r = elim (transition m.target m.error_code m.now r) [
  | none ↦ none
  | some r' ↦ transitions ms r'
]

abbrev pub targets : List Move → List State
targets [] = []
targets (m ∷ ms) = m.target ∷ targets ms

-- The states still to be passed on the way to `finalized`, if there is a way.
abbrev pub way_to_finalized : State → Option (List State)
way_to_finalized received =
    some (bundle_frozen ∷ specialists_completed ∷ formal_calculated ∷ governed ∷ finalized ∷ [])
way_to_finalized bundle_frozen =
    some (specialists_completed ∷ formal_calculated ∷ governed ∷ finalized ∷ [])
way_to_finalized specialists_completed = some (formal_calculated ∷ governed ∷ finalized ∷ [])
way_to_finalized formal_calculated = some (governed ∷ finalized ∷ [])
way_to_finalized governed = some (finalized ∷ [])
way_to_finalized finalized = some []
way_to_finalized published = none
way_to_finalized failed = none

way-step :
    (s t : State) (l : List State)
    → allows s t ≡ true
    → way_to_finalized t ≡ some l
    → way_to_finalized s ≡ some (t ∷ l)
unfolding allows
way-step s t l h e = ground arith

record Stepped (m : Move) (ms : List Move) (r r' : DecisionRun) : Type 0 where
  mid : DecisionRun
  was_allowed : allows r.state m.target ≡ true
  mid_state : mid.state ≡ m.target
  mid_version : mid.version ≡ r.version + 1
  then_on : transitions ms mid ≡ some r'

step :
    (m : Move) (ms : List Move) (r r' : DecisionRun)
    → transitions (m ∷ ms) r ≡ some r'
    → Stepped m ms r r'
unfolding transitions transition
step m ms r r' e = elim (Bool-cases (allows r.state m.target)) [
  | inl ok ↦ record {
    mid = record r {
      state = m.target;
      version = r.version + 1;
      last_error_code = m.error_code;
      updated_at = m.now;
    };
    was_allowed = ok;
    mid_state = refl;
    mid_version = refl;
    then_on = rw (ok, transitions, transition) at e;
  }
  | inr bad ↦ ground arith
]

-- Every successful row of calls raises the version by one each.
pub transitions-version :
    (ms : List Move) (r r' : DecisionRun)
    → transitions ms r ≡ some r'
    → r'.version ≡ r.version + length ms
unfolding transitions
transitions-version [] r r' e = ground arith
transitions-version (m ∷ ms) r r' e =
    let s = step m ms r r' e in
    omega (arith, s.mid_version, transitions-version ms s.mid r' s.then_on)

way-transitions :
    (ms : List Move) (r r' : DecisionRun)
    → transitions ms r ≡ some r'
    → r'.state ≡ finalized
    → way_to_finalized r.state ≡ some (targets ms)
unfolding transitions
way-transitions [] r r' e f = ground arith
way-transitions (m ∷ ms) r r' e f =
    let s = step m ms r r' e in
    let on = way-transitions ms s.mid r' s.then_on f in
    way-step r.state m.target (targets ms) s.was_allowed (rw s.mid_state at on)

-- A run that reaches FINALIZED has passed every state before it, once and in order, in five
-- calls; no way leads round the governance or the calculation.
pub finalized_only_in_order :
    (decision_id request_id now : ℕ) (ms : List Move) (r : DecisionRun)
    → transitions ms (new_run decision_id request_id now) ≡ some r
    → r.state ≡ finalized
    → (targets ms
        ≡ bundle_frozen ∷ specialists_completed ∷ formal_calculated ∷ governed ∷ finalized ∷ [])
      × (r.version ≡ 5)
finalized_only_in_order decision_id request_id now ms r e f =
    let way = way-transitions ms _ r e f in
    let all : targets ms
        ≡ bundle_frozen ∷ specialists_completed ∷ formal_calculated ∷ governed ∷ finalized ∷ [] =
      cc way in
    (all, omega (arith, transitions-version ms _ r e, length-targets ms, ap length all))
  where
    length-targets : (ms : List Move) → length ms ≡ length (targets ms)
    length-targets [] = refl
    length-targets (m ∷ ms) = ap suc (length-targets ms)

-- A run is eligible for execution only after all five calls; one more call, whatever it is,
-- publishes it or raises, and ends the eligibility.
pub eligible_only_finalized :
    (decision_id request_id now : ℕ) (ms : List Move) (r : DecisionRun)
    → transitions ms (new_run decision_id request_id now) ≡ some r
    → execution_eligible r ≡ true
    → (r.version ≡ 5)
      × ((m : Move) (r' : DecisionRun)
          → transition m.target m.error_code m.now r ≡ some r'
          → (r'.state ≡ published) × (execution_eligible r' ≡ false))
unfolding execution_eligible transition allows
eligible_only_finalized decision_id request_id now ms r e h =
    let f : r.state ≡ finalized = ground arith in
    ((finalized_only_in_order decision_id request_id now ms r e f).1, λ m r' t. ground arith)
