-- ===== src/Jobs/Idempotent.antt =====
-- The idempotency key of `create`.
use stock_agent.Base.{
  ℕ, suc, ◌≡◌, sym, ap, subst, true, inl, inr, Option, none, some, [], ◌∷◌, ◌++◌, arith,
  Option-cases,
}
use stock_agent.Base.Rows.{select, get_row-append_new}
use stock_agent.Jobs.Task.{Task, Table, get, create, existing, insert, new_task, has_key}

select-append_new :
    (k : ℕ) (rows : Table) (t : Task)
    → select (has_key k) rows ≡ none
    → has_key k t ≡ true
    → select (has_key k) (rows ++ t ∷ []) ≡ some t
select-append_new k [] t e h = rw h
select-append_new k (x ∷ rows) t e h = ground (arith, select-append_new k rows t)

insert-fresh :
    (t : Task) (rows rows' : Table) (o : Option Task)
    → insert t rows ≡ some (rows', o)
    → (rows' ≡ rows ++ t ∷ []) × (o ≡ some t)
unfolding insert
insert-fresh t rows rows' o e = elim (Option-cases (get t.id rows)) [
  | inl fresh ↦ ground (arith, get_row-append_new Task.id rows t fresh)
  | inr (s, known) ↦ ground arith
]

found :
    (k : ℕ) (rows : Table) (t : Task)
    → existing (some (suc k)) rows ≡ none
    → has_key (suc k) t ≡ true
    → existing (some (suc k)) (rows ++ t ∷ []) ≡ some t
unfolding existing
found k rows t n h = select-append_new (suc k) rows t n h

-- A second `create` under the same non-empty key, whatever its other arguments, returns the row
-- that the first one returned and writes nothing.
pub create-idempotent :
    (k id now task_type payload max_retries : ℕ) (not_before : Option ℕ)
    (id' now' task_type' payload' max_retries' : ℕ) (not_before' : Option ℕ) (rows rows' : Table)
    (o : Option Task)
    → create id now task_type payload (some (suc k)) max_retries not_before rows ≡ some (rows', o)
    → create id' now' task_type' payload' (some (suc k)) max_retries' not_before' rows'
      ≡ some (rows', o)
unfolding create
create-idempotent k id now ty payload m start id' now' ty' payload' m' start' rows rows' o e =
    elim (Option-cases (existing (some (suc k)) rows)) [
      | inr (old, known) ↦
          let rows_are : rows ≡ rows' = ground arith in
          let row_is : some old ≡ o = ground arith in
          rw (subst (λ x. existing (some (suc k)) x ≡ some old) rows_are known, create)
            (ap (λ x. some (rows', x)) row_is)
      | inl new ↦
          let t = new_task id now ty payload (some (suc k)) m start in
          let made = insert-fresh t rows rows' o (ground arith) in
          let again =
            subst (λ x. existing (some (suc k)) x ≡ some t) (sym made.0)
              (found k rows t new (ground arith)) in
          rw (again, create) (ap (λ x. some (rows', x)) (sym made.1))
    ]
