-- ===== src/Conflict/Veto.antt =====
-- When a row of conflicts is vetoed, and whose opinion each is resolved by.
use stock_agent.Base.{
  ℕ, ◌≤◌, ◌≡◌, refl, ap, subst, inl, inr, Bool, true, false, ◌||◌, Option, none, some, List, [],
  ◌∷◌, ◌++◌, arith, if◌then◌else◌, map, All, Bool-cases, Option-cases,
}
use stock_agent.Conflict.{
  ConflictType, fact_conflict, regime_conflict, signal_conflict, portfolio_conflict, risk_conflict,
  other_conflict, AgentKey, risk_owner, Opinion, Conflict, Resolution, authority_of, first_of,
  has_key, vetoes, ranks_below, most_confident_from, most_confident, type_of, selected,
  owner_vetoes, by_owner, has_veto, is_vetoed, resolve, veto_action, proceed, Outcome, reason_of,
  gather, resolve_conflicts_v2, policy_agent,
}

abbrev pub any_veto : List Opinion → Bool
any_veto [] = false
any_veto (o ∷ os) = vetoes o || any_veto os

-- A conflict is barred by its own flag or by any risk agent's veto.
abbrev pub is_barred : Conflict → Bool
is_barred c = c.risk_veto || any_veto c.options

abbrev pub any_barred : List Conflict → Bool
any_barred [] = false
any_barred (c ∷ cs) = is_barred c || any_barred cs

first_veto : (os : List Opinion) → has_veto (first_of vetoes os) ≡ any_veto os
first_veto [] = refl
first_veto (o ∷ os) = ground (arith, first_veto os)

-- The owner of a risk conflict is a risk agent, so that its veto is one of those.
owner_veto_counts :
    (os : List Opinion) (o : Opinion)
    → first_of (has_key risk_owner) os ≡ some o
    → o.veto ≡ true
    → any_veto os ≡ true
owner_veto_counts [] o e v = cc
owner_veto_counts (x ∷ os) o e v = ground (arith, owner_veto_counts os o)

-- The veto of a risk conflict's owner, whatever the conflict's type is.
owner_vetoes_any :
    (t : ConflictType) (os : List Opinion)
    → by_owner t (first_of (has_key (authority_of t)) os) ≡ true
    → any_veto os ≡ true
owner_vetoes_any risk_conflict os e = elim (Option-cases (first_of (has_key risk_owner) os)) [
  | inl n ↦ let clash : false ≡ true = rw n at e in cc
  | inr (o, f) ↦ owner_veto_counts os o f (rw f at e)
]
owner_vetoes_any fact_conflict os e = cc
owner_vetoes_any regime_conflict os e = cc
owner_vetoes_any signal_conflict os e = cc
owner_vetoes_any portfolio_conflict os e = cc
owner_vetoes_any other_conflict os e = cc

is_vetoed_lem : (c : Conflict) → is_vetoed c ≡ is_barred c
unfolding is_vetoed
is_vetoed_lem c = elim (Bool-cases (owner_vetoes c)) [
  | inr silent ↦ ground (arith, first_veto c.options, silent)
  | inl spoken ↦
      let some_veto = owner_vetoes_any (type_of c) c.options spoken in
      ground (arith, first_veto c.options, some_veto)
]

abbrev pub barred_reasons : List Conflict → List (Option ℕ)
barred_reasons [] = []
barred_reasons (c ∷ cs) =
    let rest = barred_reasons cs in if is_barred c then reason_of c ∷ rest else rest

append_cons {ℓ} :
    {A : Type ℓ} (xs : List A) (y : A) (zs : List A) → (xs ++ y ∷ []) ++ zs ≡ xs ++ (y ∷ zs)
append_cons [] y zs = refl
append_cons (x ∷ xs) y zs = ap (λ t. x ∷ t) (append_cons xs y zs)

append-nil {ℓ} : {A : Type ℓ} (xs : List A) → xs ++ [] ≡ xs
append-nil [] = refl
append-nil (x ∷ xs) = ap (λ t. x ∷ t) (append-nil xs)

or_false : (b : Bool) → (b || false) ≡ b
or_false true = refl
or_false false = refl

abbrev outcome_of : Bool → List (Option ℕ) → List Resolution → Outcome
outcome_of vetoed reasons done = record {
  final_action = if vetoed then veto_action else proceed;
  vetoed = vetoed;
  veto_reasons = reasons;
  resolutions = done;
}

gather_lem :
    (cs : List Conflict) (v : Bool) (reasons : List (Option ℕ)) (done : List Resolution)
    → gather cs v reasons done
      ≡ outcome_of (v || any_barred cs) (reasons ++ barred_reasons cs) (done ++ map resolve cs)
unfolding gather
gather_lem [] v reasons done = cc (append-nil reasons, append-nil done, or_false v)
gather_lem (c ∷ cs) v reasons done =
    let iv = is_vetoed_lem c in
    let kept = append_cons done (resolve c) (map resolve cs) in
    elim (Bool-cases (is_barred c)) [
      | inl barred ↦
          let more = append_cons reasons (reason_of c) (barred_reasons cs) in
          let rest = gather_lem cs true (reasons ++ reason_of c ∷ []) (done ++ resolve c ∷ []) in
          ground (arith, iv, barred, more, kept, rest)
      | inr free ↦
          let rest = gather_lem cs v reasons (done ++ resolve c ∷ []) in
          ground (arith, iv, free, kept, rest)
    ]

-- The decision is vetoed exactly when some conflict carries the flag or the veto of any risk
-- agent, of whatever type it is and however many others outvote it; the reasons are those of
-- these conflicts, and each conflict is resolved once, in order.
pub vetoed_exactly :
    (cs : List Conflict)
    → let out = resolve_conflicts_v2 cs in
      (out.vetoed ≡ any_barred cs)
      × (out.final_action ≡ (if any_barred cs then veto_action else proceed))
      × (out.veto_reasons ≡ barred_reasons cs)
      × (out.resolutions ≡ map resolve cs)
unfolding resolve_conflicts_v2
vetoed_exactly cs =
    let all = gather_lem cs false [] [] in
    (
      ap (λ x. x.vetoed) all,
      ap (λ x. x.final_action) all,
      ap (λ x. x.veto_reasons) all,
      ap (λ x. x.resolutions) all,
    )

-- An option of the list that passes the test.
first_of-holds :
    (test : Opinion → Bool) (os : List Opinion) (o : Opinion)
    → first_of test os ≡ some o
    → test o ≡ true
first_of-holds test [] o e = cc
first_of-holds test (x ∷ os) o e = ground (arith, first_of-holds test os o)

first_of-none :
    (test : Opinion → Bool) (os : List Opinion)
    → first_of test os ≡ none
    → All (λ o. test o ≡ false) os
first_of-none test [] e = tt
first_of-none test (x ∷ os) e = (ground arith, first_of-none test os (ground arith))

ranked_up : (a b : Opinion) → ranks_below a b ≡ true → a.confidence ≤ b.confidence
ranked_up a b e = ground arith

ranked_down : (a b : Opinion) → ranks_below a b ≡ false → b.confidence ≤ a.confidence
ranked_down a b e = ground arith

abbrev Greatest : Opinion → List Opinion → Opinion → Type 0
Greatest best os m = (best.confidence ≤ m.confidence) × All (λ o. o.confidence ≤ m.confidence) os

confident_least :
    (best : Opinion) (os : List Opinion) → Greatest best os (most_confident_from best os)
confident_least best [] = (omega arith, tt)
confident_least best (o ∷ os) =
    by (ranks_below best o) refl (confident_least o os) (confident_least best os)
  where
    by :
        (b : Bool)
        → ranks_below best o ≡ b
        → Greatest o os (most_confident_from o os)
        → Greatest best os (most_confident_from best os)
        → Greatest best (o ∷ os) (most_confident_from (if b then o else best) os)
    by true e rest other = (omega (arith, rest.0, ranked_up best o e), (rest.0, rest.1))
    by false e other rest = (rest.0, (omega (arith, rest.0, ranked_down best o e), rest.1))

abbrev pub any_key : AgentKey → List Opinion → Bool
any_key k [] = false
any_key k (o ∷ os) = has_key k o || any_key k os

first_of_key :
    (k : AgentKey) (os : List Opinion)
    → any_key k os ≡ true
    → (o : Opinion) × (first_of (has_key k) os ≡ some o) × (has_key k o ≡ true)
first_of_key k [] e = cc
first_of_key k (x ∷ os) e = elim (Bool-cases (has_key k x)) [
  | inl t ↦ rw t (x, refl, t)
  | inr f ↦ rw f (first_of_key k os (ground arith))
]

first_of_no_key :
    (k : AgentKey) (os : List Opinion) → any_key k os ≡ false → first_of (has_key k) os ≡ none
first_of_no_key k [] e = refl
first_of_no_key k (x ∷ os) e = ground (arith, first_of_no_key k os)

most_confident-greatest :
    (os : List Opinion) (o : Opinion)
    → most_confident os ≡ some o
    → All (λ x. x.confidence ≤ o.confidence) os
most_confident-greatest [] o e = cc
most_confident-greatest (x ∷ os) o e =
    let best : most_confident_from x os ≡ o = cc in
    subst (λ (y : Opinion). All (λ z. z.confidence ≤ y.confidence) (x ∷ os)) best
      (confident_least x os)

-- Whose opinion a conflict is resolved by: a vetoing risk agent's if there is one; else that of
-- the domain's owner if it has one; else the deterministic policy's if it has one; else one of
-- the greatest confidence.
pub selection_order :
    (c : Conflict) (o : Opinion)
    → selected c ≡ some o
    → let owner = any_key (authority_of (type_of c)) c.options in
      let policy = any_key policy_agent c.options in
      (any_veto c.options ≡ true → vetoes o ≡ true)
      × (any_veto c.options ≡ false → owner ≡ true → has_key (authority_of (type_of c)) o ≡ true)
      × (any_veto c.options ≡ false → owner ≡ false → policy ≡ true → has_key policy_agent o ≡ true)
      × (any_veto c.options ≡ false
          → owner ≡ false
          → policy ≡ false
          → All (λ x. x.confidence ≤ o.confidence) c.options)
unfolding selected
selection_order c o e =
    let os = c.options in
    let k = authority_of (type_of c) in
    let flag = first_veto os in
    elim (Option-cases (first_of vetoes os)) [
      | inr (v, f) ↦
          let same : v ≡ o = ground (arith, e, f) in
          let real : vetoes v ≡ true = first_of-holds vetoes os v f in
          let on : any_veto os ≡ true = ground (arith, flag, f) in
          ((λ h. subst (λ x. vetoes x ≡ true) same real), (λ h. cc), (λ h. cc), (λ h. cc))
      | inl n ↦
          let off : any_veto os ≡ false = ground (arith, flag, n) in
          (
            (λ h. cc),
            (λ h h1. let (x, f, t) = first_of_key k os h1 in ground (arith, e, n, f, t)),
            (λ h h1 h2.
                let (x, f, t) = first_of_key policy_agent os h2 in
                ground (arith, e, n, f, t, first_of_no_key k os h1)),
            (λ h h1 h2. most_confident-greatest os o (
                ground (arith, e, n, first_of_no_key k os h1, first_of_no_key policy_agent os h2))),
          )
    ]
