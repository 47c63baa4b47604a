-- ===== src/Memory/Expiry.antt =====
-- `expire_due` and `validate` of engines/memory/lifecycle.py on the rows in the order of their ids.
-- A time is a number of seconds in UTC.
use stock_agent.Base.{
  ℕ, zero, suc, ◌+◌, ◌*◌, ◌≡◌, refl, Bool, true, false, Option, none, some, List, [], ◌∷◌, inl, inr,
  Bool-cases, leb, if◌then◌else◌,
}
use stock_agent.Memory.Lifecycle.{
  MemoryRecord, MemoryType, market_regime, theme, other_type, MemoryStatus, superseded, expired,
  rejected, validated,
}

-- MEMORY_TTL_DAYS
abbrev pub ttl_days : MemoryType → Option ℕ
ttl_days market_regime = some 30
ttl_days theme = some 90
ttl_days other_type = none

abbrev pub is_closed : MemoryStatus → Bool
is_closed superseded = true
is_closed expired = true
is_closed rejected = true
is_closed _ = false

abbrev pub seen_and_kept : Option ℕ → Option ℕ → Option ℕ
seen_and_kept (some days) (some seen) = some (seen + days * 86400)
seen_and_kept _ _ = none

abbrev pub due_of : MemoryRecord → Option ℕ
due_of r = elim r.valid_to [
  | some t ↦ some t
  | none ↦ seen_and_kept (ttl_days r.memory_type) r.last_seen_at
]

abbrev pub due_by : ℕ → Option ℕ → Bool
due_by now none = false
due_by now (some t) = leb t now

-- Whether the loop expires the record.
abbrev pub is_due : ℕ → MemoryRecord → Bool
is_due now r = if is_closed r.status then false else due_by now (due_of r)

unfoldable pub expire_row : ℕ → MemoryRecord → MemoryRecord
expire_row now r = if is_due now r then record r { status = expired; valid_to = due_of r } else r

-- The rows afterwards and the ids of those that were expired.
unfoldable pub expire_due : ℕ → ℕ → List MemoryRecord → List MemoryRecord × List ℕ
expire_due now zero rows = (rows, [])
expire_due now (suc limit) [] = ([], [])
expire_due now (suc limit) (r ∷ rows) =
    let rest = expire_due now limit rows in
    (expire_row now r ∷ rest.0, if is_due now r then r.id ∷ rest.1 else rest.1)

-- `validate`
unfoldable pub validate : MemoryRecord → MemoryRecord
validate r = record r { status = validated }

expire_row-settles : (now : ℕ) (r : MemoryRecord) → is_due now (expire_row now r) ≡ false
unfolding expire_row
expire_row-settles now r = elim (Bool-cases (is_due now r)) [ inl y ↦ rw y refl | inr n ↦ rw n n ]

-- A second call at the same time, with the same limit, expires nothing more.
pub expire_again :
    (now limit : ℕ) (rows : List MemoryRecord)
    → (expire_due now limit (expire_due now limit rows).0).1 ≡ []
unfolding expire_due
expire_again now zero rows = refl
expire_again now (suc limit) [] = refl
expire_again now (suc limit) (r ∷ rows) =
    rw (expire_row-settles now r) (expire_again now limit rows)
