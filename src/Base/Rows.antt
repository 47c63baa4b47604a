-- ===== src/Base/Rows.antt =====
-- A table as the list of its rows: SELECT and UPDATE with a WHERE clause, and what they keep.
use Prim.Native.Nat.{ℕ}
use mathlib.Core.Path.{◌≡◌, refl, sym, subst}
use mathlib.Core.Logic.{◌≢◌, ◌⊎◌, inl, inr}
use mathlib.Core.Bool.{Bool, true, false, ◌&&◌}
use mathlib.Core.Option.{Option, none, some}
use mathlib.Core.List.{List, [], ◌∷◌, ◌++◌}
use native.Mathlib.Omega.{arith}
use stock_agent.Base.Lists.{All}
use stock_agent.Base.Tests.{if◌then◌else◌, Bool-cases, ◌==◌, ==_iff}

module _ {ℓ} {A : Type ℓ} where
  -- SELECT * WHERE test, first row.
  abbrev pub select : (A → Bool) → List A → Option A
  select test [] = none
  select test (r ∷ rows) = if test r then some r else select test rows

  -- UPDATE SET change WHERE test.
  abbrev pub update : (A → Bool) → (A → A) → List A → List A
  update test change [] = []
  update test change (r ∷ rows) = (if test r then change r else r) ∷ update test change rows

  -- Whether `rowcount` of such an UPDATE is positive.
  abbrev pub matches : (A → Bool) → List A → Bool
  matches test [] = false
  matches test (r ∷ rows) = if test r then true else matches test rows

  pub All-update {κ} :
      (P : A → Type κ) (test : A → Bool) (change : A → A)
      → ((r : A) → P r → test r ≡ true → P (change r))
      → (rows : List A) → All P rows
      → All P (update test change rows)
  All-update P test change keep [] h = tt
  All-update P test change keep (r ∷ rows) h = elim (Bool-cases (test r)) [
    | inl e ↦ rw e (keep r h.0 e, All-update P test change keep rows h.1)
    | inr e ↦ rw e (h.0, All-update P test change keep rows h.1)
  ]

  pub All-select {κ} :
      (P : A → Type κ) (test : A → Bool) (rows : List A) {r : A}
      → All P rows
      → select test rows ≡ some r
      → P r × (test r ≡ true)
  All-select P test [] h e = cc
  All-select P test (x ∷ rows) {r} h e = elim (Bool-cases (test x)) [
    | inl t ↦
        let e' : some x ≡ some r = rw t at e in subst (λ y. P y × (test y ≡ true)) (cc e') (h.0, t)
    | inr t ↦ All-select P test rows h.1 (rw t at e)
  ]

  pub All-append {κ} :
      (P : A → Type κ) (rows : List A) (r : A) → All P rows → P r → All P (rows ++ r ∷ [])
  All-append P [] r h p = (p, tt)
  All-append P (x ∷ rows) r h p = (h.0, All-append P rows r h.1 p)

  -- Where no row matches, nothing is written.
  pub update-unmatched :
      (test : A → Bool) (change : A → A) (rows : List A)
      → matches test rows ≡ false
      → update test change rows ≡ rows
  update-unmatched test change [] h = refl
  update-unmatched test change (x ∷ rows) h = ground (arith, update-unmatched test change rows)

module _ {A : Type 0} (key : A → ℕ) where
  abbrev pub get_row : ℕ → List A → Option A
  get_row id = select (λ r. key r == id)

  -- The primary key.
  abbrev pub IsUnique : List A → Type 0
  IsUnique [] = Unit
  IsUnique (r ∷ rows) = (get_row (key r) rows ≡ none) × IsUnique rows

  -- WHERE id = :id AND test.
  abbrev pub with_key : ℕ → (A → Bool) → A → Bool
  with_key id test r = key r == id && test r

  pub get_row-key : (id : ℕ) (rows : List A) {r : A} → get_row id rows ≡ some r → key r ≡ id
  get_row-key id [] e = cc
  get_row-key id (x ∷ rows) {r} e = ground (arith, get_row-key id rows {r = r})

  module _ (id : ℕ) (test : A → Bool) (change : A → A)
      (keeps : (r : A) → key (change r) ≡ key r) where
    pub get_row-update_self :
        (rows : List A) {r : A}
        → get_row id rows ≡ some r
        → get_row id (update (with_key id test) change rows) ≡ some (if test r then change r else r)
    get_row-update_self [] e = cc
    get_row-update_self (x ∷ rows) {r} e = ground (arith, keeps x, get_row-update_self rows {r = r})

    -- What an UPDATE by key does to the row found under any id.
    pub get_row-update :
        (k : ℕ) (rows : List A) {r : A}
        → get_row k rows ≡ some r
        → get_row k (update (with_key id test) change rows)
          ≡ some (if (k == id) && test r then change r else r)
    get_row-update k [] e = cc
    get_row-update k (x ∷ rows) {r} e = ground (arith, keeps x, get_row-update k rows {r = r})

    pub get_row-update_ne :
        (k : ℕ) (rows : List A)
        → k ≢ id
        → get_row k (update (with_key id test) change rows) ≡ get_row k rows
    get_row-update_ne k [] ne = refl
    get_row-update_ne k (x ∷ rows) ne = ground (arith, keeps x, get_row-update_ne k rows)

    pub get_row-update-none :
        (k : ℕ) (rows : List A)
        → get_row k rows ≡ none
        → get_row k (update (with_key id test) change rows) ≡ none
    get_row-update-none k [] e = refl
    get_row-update-none k (x ∷ rows) e = ground (arith, keeps x, get_row-update-none k rows)

    pub update-IsUnique :
        (rows : List A) → IsUnique rows → IsUnique (update (with_key id test) change rows)
    update-IsUnique [] u = tt
    update-IsUnique (x ∷ rows) u =
        ground (arith, keeps x, update-IsUnique rows u.1, get_row-update-none (key x) rows u.0)

  -- With unique keys the WHERE clause decides on the one row that `id` names.
  pub matches-unfound :
      (id : ℕ) (test : A → Bool) (rows : List A)
      → get_row id rows ≡ none
      → matches (with_key id test) rows ≡ false
  matches-unfound id test [] e = refl
  matches-unfound id test (x ∷ rows) e = ground (arith, matches-unfound id test rows)

  pub matches-found :
      (id : ℕ) (test : A → Bool) (rows : List A) {r : A}
      → IsUnique rows
      → get_row id rows ≡ some r
      → matches (with_key id test) rows ≡ test r
  matches-found id test [] u e = cc
  matches-found id test (x ∷ rows) {r} u e =
      ground (arith, matches-found id test rows {r = r} u.1, matches-unfound id test rows)

  update-unfound :
      (id : ℕ) (test : A → Bool) (change : A → A) (rows : List A)
      → get_row id rows ≡ none
      → update (with_key id test) change rows ≡ rows
  update-unfound id test change [] e = refl
  update-unfound id test change (x ∷ rows) e = ground (arith, update-unfound id test change rows)

  -- Of the row that `id` names only its own verdict counts.
  pub update-found :
      (id : ℕ) (test test' : A → Bool) (change : A → A) (rows : List A) {r : A}
      → IsUnique rows
      → get_row id rows ≡ some r
      → test r ≡ test' r
      → update (with_key id test) change rows ≡ update (with_key id test') change rows
  update-found id test test' change [] u e t = refl
  update-found id test test' change (x ∷ rows) {r} u e t = ground (
    arith,
    update-unfound id test change rows,
    update-unfound id test' change rows,
    update-found id test test' change rows {r = r} u.1,
  )

  -- A row that fails the test is not written.
  pub update-rejected :
      (id : ℕ) (test : A → Bool) (change : A → A) (rows : List A)
      → matches (with_key id test) rows ≡ false
      → update (with_key id test) change rows ≡ rows
  update-rejected id test change rows = update-unmatched (with_key id test) change rows

  pub All-update_key {κ} :
      (P : A → Type κ) (id : ℕ) (test : A → Bool) (change : A → A) (rows : List A) {r : A}
      → IsUnique rows
      → get_row id rows ≡ some r
      → All P rows
      → (P r → test r ≡ true → P (change r))
      → All P (update (with_key id test) change rows)
  All-update_key P id test change [] u e h keep = tt
  All-update_key P id test change (x ∷ rows) {r} u e h keep = elim (Bool-cases (key x == id)) [
    | inr other ↦
        let rest = All-update_key P id test change rows {r = r} u.1 (rw other at e) h.1 keep in
        rw other (h.0, rest)
    | inl here ↦
        let same : x ≡ r = cc (let e' : some x ≡ some r = rw here at e in e') in
        let id_is : key x ≡ id = (==_iff (key x) id).0 here in
        let rest : All P (update (with_key id test) change rows) =
          rw (update-unfound id test change rows (subst (λ k. get_row k rows ≡ none) id_is u.0))
            h.1 in
        elim (Bool-cases (test x)) [
          | inl t ↦
              rw (here, t)
                (
                  subst (λ y. P (change y)) (sym same)
                      (keep (subst P same h.0) (subst (λ y. test y ≡ true) same t)),
                  rest,
                )
          | inr t ↦ rw (here, t) (h.0, rest)
        ]
  ]

  pub get_row-append_old :
      (id : ℕ) (rows : List A) (s : A) {r : A}
      → get_row id rows ≡ some r
      → get_row id (rows ++ s ∷ []) ≡ some r
  get_row-append_old id [] s e = cc
  get_row-append_old id (x ∷ rows) s {r} e = ground (arith, get_row-append_old id rows s {r = r})

  get_row-append :
      (id : ℕ) (rows : List A) (r : A)
      → get_row id rows ≡ none
      → key r ≢ id
      → get_row id (rows ++ r ∷ []) ≡ none
  get_row-append id [] r e ne = ground arith
  get_row-append id (x ∷ rows) r e ne = ground (arith, get_row-append id rows r)

  pub get_row-append_new :
      (rows : List A) (r : A)
      → get_row (key r) rows ≡ none
      → get_row (key r) (rows ++ r ∷ []) ≡ some r
  get_row-append_new [] r e = ground arith
  get_row-append_new (x ∷ rows) r e = ground (arith, get_row-append_new rows r)

  pub append-IsUnique :
      (rows : List A) (r : A)
      → IsUnique rows
      → get_row (key r) rows ≡ none
      → IsUnique (rows ++ r ∷ [])
  append-IsUnique [] r u e = (refl, tt)
  append-IsUnique (x ∷ rows) r u e =
      ground (arith, get_row-append (key x) rows r u.0, append-IsUnique rows r u.1)

  pub get_row-append_inv :
      (id : ℕ) (rows : List A) (s : A) {r : A}
      → get_row id (rows ++ s ∷ []) ≡ some r
      → (get_row id rows ≡ some r) ⊎ (s ≡ r)
  get_row-append_inv id [] s e = ground arith
  get_row-append_inv id (x ∷ rows) s {r} e = ground (arith, get_row-append_inv id rows s {r = r})
