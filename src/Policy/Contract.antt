-- ===== src/Policy/Contract.antt =====
-- The validators of contracts/decision.py: `validate_semantics` of a PolicyCheckResult and
-- `validate_trace_and_hash` of a PolicyEvaluation. The identifiers and texts, which the engine
-- writes itself, and the hash, which `build` has just computed from the same values, are left out.
use stock_agent.Base.{
  Bool, true, false, not, ◌&&◌, Option, none, some, List, [], ◌∷◌, if◌then◌else◌, is_some,
}
use stock_agent.Base.Int.{ℤ, leb_ℤ}
use stock_agent.Policy.Second.{PolicyCheckResult, PolicyEvaluation, Severity, has_reject}

abbrev pub is_info : Severity → Bool
is_info s = elim s [ Severity.info ↦ true | _ ↦ false ]

abbrev pub is_rejection : Severity → Bool
is_rejection s = elim s [ Severity.reject ↦ true | _ ↦ false ]

abbrev pub is_adjustment : Severity → Bool
is_adjustment s = elim s [ Severity.adjust ↦ true | _ ↦ false ]

-- `PolicyCheckResult.validate_semantics`
unfoldable pub validate_semantics : PolicyCheckResult → Bool
validate_semantics k =
    not (not k.passed && is_info k.severity)
    && not (is_adjustment k.severity && not (is_some k.adjusted_value))
    && not (is_rejection k.severity && k.passed)

unfoldable pub validate_all : List PolicyCheckResult → Bool
validate_all [] = true
validate_all (k ∷ ks) = validate_semantics k && validate_all ks

abbrev pub adjusts : PolicyCheckResult → Bool
adjusts k = is_adjustment k.severity && is_some k.adjusted_value

-- The last of the `adjustments`.
unfoldable pub last_adjustment : List PolicyCheckResult → Option PolicyCheckResult
last_adjustment [] = none
last_adjustment (k ∷ ks) =
    let rest = last_adjustment ks in
    elim rest [ some last ↦ some last | none ↦ if adjusts k then some k else none ]

abbrev pub same_value : Option ℤ → Option ℤ → Bool
same_value none none = true
same_value (some a) (some b) = leb_ℤ a b && leb_ℤ b a
same_value _ _ = false

abbrev pub is_trace : List PolicyCheckResult → Bool
is_trace [] = false
is_trace (k ∷ ks) = true

abbrev pub keeps_adjustment : Option PolicyCheckResult → Option ℤ → Bool
keeps_adjustment none value = true
keeps_adjustment (some k) value = same_value value k.adjusted_value

-- `PolicyEvaluation.validate_trace_and_hash`
unfoldable pub validate_trace : PolicyEvaluation → Bool
validate_trace e =
    is_trace e.trace
    && not (e.approved && has_reject e.trace)
    && keeps_adjustment (last_adjustment e.trace) e.final_value
