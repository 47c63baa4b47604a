-- ===== src/Conflict/Tests.antt =====
-- A risk agent against two confident opinions.
use stock_agent.Base.{◌≤◌, ◌≡◌, refl, true, false, none, some, [], ◌∷◌, All, map}
use stock_agent.Conflict
use stock_agent.Conflict.Veto

abbrev bold : Conflict.Opinion
bold = record { agent = 1; key = Conflict.factor_owner; value = 10; confidence = 95; veto = false }

abbrev wary : Conflict.Opinion
wary = record { agent = 2; key = Conflict.risk_owner; value = 0; confidence = 5; veto = true }

abbrev conflict : Conflict.Conflict
conflict = record {
  conflict_type = none;
  dimension = some 7;
  options = bold ∷ wary ∷ [];
  risk_veto = false;
}

vetoed_exactly_example :
    let out = Conflict.resolve_conflicts_v2 (conflict ∷ []) in
    (out.vetoed ≡ true)
    × (out.final_action ≡ Conflict.veto_action)
    × (out.veto_reasons ≡ some 7 ∷ [])
    × (out.resolutions ≡ map Conflict.resolve (conflict ∷ []))
vetoed_exactly_example = Veto.vetoed_exactly (conflict ∷ [])

wary_is_selected : Conflict.selected conflict ≡ some wary
unfolding Conflict.selected
wary_is_selected = refl

selection_order_example :
    (true ≡ true → Conflict.vetoes wary ≡ true)
    × (true ≡ false → true ≡ true → Conflict.has_key Conflict.factor_owner wary ≡ true)
    × (true ≡ false
        → true ≡ false
        → false ≡ true
        → Conflict.has_key Conflict.policy_agent wary ≡ true)
    × (true ≡ false
        → true ≡ false
        → false ≡ false
        → All (λ (x : Conflict.Opinion). x.confidence ≤ 5) (bold ∷ wary ∷ []))
selection_order_example = Veto.selection_order conflict wary wary_is_selected
