-- ===== src/Authorization/Finalizer.antt =====
-- `FormalDecisionFinalizer.finalize` of app/domain/decision/execution_authorization.py and the
-- validators of the envelope that it issues. Texts are numbers, 0 the empty one, and upper-cased
-- where the source compares them so; a notional is a whole number of the smallest unit. The fresh
-- envelope id, and the marker that keeps others from building an envelope, are left out.
use stock_agent.Base.{
  ℕ, Bool, true, false, not, ◌&&◌, ◌||◌, Option, none, some, List, [], ◌∷◌, ltb, ◌==◌,
  if◌then◌else◌, contains, holds_value, is_some, or_default, is_truthy,
}
use stock_agent.Base.Int.{ℤ, pos, leb_ℤ, ltb_ℤ}

-- The texts that the code compares with.
abbrev pub finalized_text : ℕ
finalized_text = 1

-- HOLD, WATCH, VETO, REJECTED and REJECT.
abbrev pub blocking_texts : List ℕ
blocking_texts = 2 ∷ 3 ∷ 4 ∷ 5 ∷ 6 ∷ []

-- APPROVED, APPROVE, APPROVE_WITH_ADJUSTMENT, BUY and SELL.
abbrev pub approving_texts : List ℕ
approving_texts = 7 ∷ 8 ∷ 9 ∷ 10 ∷ 11 ∷ []

-- HOLD, WATCH and VETO.
abbrev passive_texts : List ℕ
passive_texts = 2 ∷ 3 ∷ 4 ∷ []

-- The attributes, or dict entries, of a decision that the finalizer reads.
pub record DecisionView : Type 0 where
  pub state : Option ℕ
  pub status : Option ℕ
  pub investment_action : Option ℕ
  pub action : Option ℕ
  pub decision_id : Option ℕ

-- The keys of the lineage: the required ones are 1 to 11.
abbrev pub required_keys : List ℕ
required_keys = 1 ∷ 2 ∷ 3 ∷ 4 ∷ 5 ∷ 6 ∷ 7 ∷ 8 ∷ 9 ∷ 10 ∷ 11 ∷ []

abbrev pub decision_id_key : ℕ
decision_id_key = 4

abbrev pub decision_snapshot_id_key : ℕ
decision_snapshot_id_key = 5

abbrev pub portfolio_id_key : ℕ
portfolio_id_key = 9

abbrev pub policy_version_key : ℕ
policy_version_key = 10

-- The arguments of `finalize`. A checksum is true where it starts with sha256:, and a strategy
-- version is 0 where nothing is left of it when it is stripped.
pub record Request : Type 0 where
  pub decision : DecisionView
  pub snapshot_id : ℕ
  pub governance_approved : Option Bool
  pub policy_version : ℕ
  pub lineage : ℕ → Option ℕ
  pub valid_until : ℕ
  pub is_timezone_aware : Bool
  pub portfolio_id : ℕ
  pub contract_checksums : List Bool
  pub allowed_actions : List ℕ
  pub max_notional : ℤ
  pub strategy_version : Option ℕ

pub record Envelope : Type 0 where
  pub decision_id : ℕ
  pub decision_snapshot_id : ℕ
  pub portfolio_id : ℕ
  pub allowed_actions : List ℕ
  pub max_notional : ℤ
  pub valid_until : ℕ

pub data Refusal : Type 0 where
  decision_not_finalized execution_not_eligible execution_action_not_approved : Refusal
  allowed_actions_required positive_notional_required decision_snapshot_required : Refusal
  governance_required policy_version_required strategy_version_required : Refusal
  policy_lineage_mismatch lineage_required valid_until_must_be_aware : Refusal
  authorization_expired snapshot_lineage_mismatch portfolio_lineage_mismatch : Refusal
  contract_checksum_required field_invalid : Refusal

pub data Answer : Type 0 where
  issued : Envelope → Answer
  refused : Refusal → Answer

-- `if not test: raise`
unfoldable pub require : Bool → Refusal → Answer → Answer
require true r a = a
require false r a = refused r

-- `a or b`
abbrev pub or_else : Option ℕ → Option ℕ → Option ℕ
or_else a b = if is_truthy a then a else b

abbrev pub state_of : DecisionView → Option ℕ
state_of d = or_else d.state d.status

abbrev pub action_of : DecisionView → Option ℕ
action_of d = or_else d.investment_action (or_else d.action d.status)

abbrev all_in : List ℕ → List ℕ → Bool
all_in texts [] = true
all_in texts (a ∷ names) = contains a texts && all_in texts names

abbrev pub is_empty : List ℕ → Bool
is_empty [] = true
is_empty (a ∷ names) = false

-- Whether some action may be taken that is not a passive one.
abbrev pub acts : List ℕ → Bool
acts names = not (is_empty names || all_in passive_texts names)

-- The checks on an action, where the decision names one.
abbrev pub check_action : Option ℕ → Request → Answer → Answer
check_action none q next = next
check_action (some a) q next = require (not (contains a blocking_texts)) execution_not_eligible (
    require (contains a approving_texts) execution_action_not_approved (
      require (acts q.allowed_actions) allowed_actions_required
        (require (ltb_ℤ (pos 0) q.max_notional) positive_notional_required next)))

abbrev pub is_true : Option Bool → Bool
is_true (some true) = true
is_true _ = false

abbrev pub has_keys : (ℕ → Option ℕ) → List ℕ → Bool
has_keys lineage [] = true
has_keys lineage (k ∷ ks) = is_some (lineage k) && has_keys lineage ks

abbrev pub all_true : List Bool → Bool
all_true [] = true
all_true (b ∷ bs) = b && all_true bs

abbrev pub some_checksum : List Bool → Bool
some_checksum [] = false
some_checksum (b ∷ bs) = true

abbrev pub envelope_of : Request → Envelope
envelope_of q =
    let own = or_else q.decision.decision_id (q.lineage decision_id_key) in
    record {
      decision_id = or_default own 0;
      decision_snapshot_id = q.snapshot_id;
      portfolio_id = q.portfolio_id;
      allowed_actions = q.allowed_actions;
      max_notional = q.max_notional;
      valid_until = q.valid_until;
    }

-- The constructor of the envelope: its fields' constraints and `validate_envelope`, at a second
-- reading of the clock.
unfoldable pub build : ℕ → Request → Answer
build later q =
    let e = envelope_of q in
    require
      (not (e.decision_id == 0)
        && not (e.decision_snapshot_id == 0)
        && not (e.portfolio_id == 0)
        && leb_ℤ (pos 0) e.max_notional)
      field_invalid
      (require (ltb later e.valid_until) authorization_expired (
        require (not (is_empty e.allowed_actions)) allowed_actions_required (
          require (some_checksum q.contract_checksums && all_true q.contract_checksums)
            contract_checksum_required (issued e))))

-- The checks after those on the decision itself, in their order.
unfoldable pub check_context : ℕ → ℕ → Request → Answer
check_context now later q = require (not (q.snapshot_id == 0)) decision_snapshot_required (
    require (is_true q.governance_approved) governance_required (
      require (not (q.policy_version == 0)) policy_version_required (
        require (not (is_some q.strategy_version) || is_truthy q.strategy_version)
          strategy_version_required
          (require (holds_value (q.lineage policy_version_key) q.policy_version)
            policy_lineage_mismatch
            (require (has_keys q.lineage required_keys) lineage_required (
              require q.is_timezone_aware valid_until_must_be_aware (
                require (ltb now q.valid_until) authorization_expired (
                  require (holds_value (q.lineage decision_snapshot_id_key) q.snapshot_id)
                    snapshot_lineage_mismatch
                    (require (holds_value (q.lineage portfolio_id_key) q.portfolio_id)
                      portfolio_lineage_mismatch (build later q))))))))))

-- `finalize`, at the times `now` and `later`.
unfoldable pub finalize : ℕ → ℕ → Request → Answer
finalize now later q =
    require (holds_value (state_of q.decision) finalized_text) decision_not_finalized
      (check_action (action_of q.decision) q (check_context now later q))
