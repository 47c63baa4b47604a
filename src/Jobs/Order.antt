-- ===== src/Jobs/Order.antt =====
-- What ORDER BY created_at ASC LIMIT 1 selects.
use stock_agent.Base.{
  ◌≤◌, ◌≡◌, Bool, true, false, inl, inr, none, some, [], ◌∷◌, arith, All, Option-cases,
}
use stock_agent.Base.Rows.{IsUnique}
use stock_agent.Jobs.Task.{Task, Table, get}
use stock_agent.Jobs.Claim.{earliest}

module _ (test : Task → Bool) where
  pub earliest-test : (rows : Table) (r : Task) → earliest test rows ≡ some r → test r ≡ true
  unfolding earliest
  earliest-test [] r e = cc
  earliest-test (x ∷ rows) r e = elim (Option-cases (earliest test rows)) [
    | inl n ↦ ground arith
    | inr (s, e') ↦ ground (arith, earliest-test rows s e')
  ]

  pub earliest-none : (rows : Table) → earliest test rows ≡ none → All (λ s. test s ≡ false) rows
  unfolding earliest
  earliest-none [] e = tt
  earliest-none (x ∷ rows) e = elim (Option-cases (earliest test rows)) [
    | inl n ↦ ground (arith, earliest-none rows n)
    | inr (s, e') ↦ ground arith
  ]

  -- No row that passes the test is older.
  abbrev pub IsLeast : Task → Table → Type 0
  IsLeast r = All (λ s. test s ≡ true → r.created_at ≤ s.created_at)

  IsLeast-mono :
      (r s : Task) (rows : Table) → r.created_at ≤ s.created_at → IsLeast s rows → IsLeast r rows
  IsLeast-mono r s [] le h = tt
  IsLeast-mono r s (x ∷ rows) le h = ((λ t. omega (arith, h.0 t)), IsLeast-mono r s rows le h.1)

  IsLeast-none : (r : Task) (rows : Table) → All (λ s. test s ≡ false) rows → IsLeast r rows
  IsLeast-none r [] h = tt
  IsLeast-none r (x ∷ rows) h = ((λ t. cc), IsLeast-none r rows h.1)

  pub earliest-IsLeast : (rows : Table) (r : Task) → earliest test rows ≡ some r → IsLeast r rows
  unfolding earliest
  earliest-IsLeast [] r e = tt
  earliest-IsLeast (x ∷ rows) r e = elim (Option-cases (earliest test rows)) [
    | inl n ↦ ((λ t. ground arith), IsLeast-none r rows (earliest-none rows n))
    | inr (s, e') ↦
        ((λ t. ground arith), IsLeast-mono r s rows (ground arith) (earliest-IsLeast rows s e'))
  ]

  pub earliest-get :
      (rows : Table) (r : Task)
      → IsUnique Task.id rows
      → earliest test rows ≡ some r
      → get r.id rows ≡ some r
  unfolding earliest
  earliest-get [] r u e = cc
  earliest-get (x ∷ rows) r u e = elim (Option-cases (earliest test rows)) [
    | inl n ↦ ground arith
    | inr (s, e') ↦ ground (arith, earliest-get rows s u.1 e')
  ]
