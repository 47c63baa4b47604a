-- ===== src/Conclusion/Write.antt =====
-- What the execution of a plan of the conclusion service leaves in the store.
use stock_agent.Base.{
  ℕ, ◌+◌, ◌≡◌, refl, sym, ap, ◌∙◌, subst, ◌≢◌, ◌⊎◌, inl, inr, Bool, true, false, Option, none, some,
  List, arith, if◌then◌else◌, Option-cases, Bool-cases,
}
use stock_agent.Base.Rows.{
  update, matches, get_row, with_key, IsUnique, get_row-update_self, get_row-update_ne,
  update-IsUnique, matches-found, matches-unfound,
}
use stock_agent.Runs.Knowledge.{KnowledgeConclusionRun}
use stock_agent.Conclusion.Repository.{
  Citation, Store, Hashing, ok, get, save, commit_result, saved_row, committed_row, at_version,
  may_commit, is_succeeded,
}
use stock_agent.Conclusion.Service.{Plan, give, save_run, commit_run, refuse, execute}
use stock_agent.Conclusion.Growth.{Fits, Grows, IsConsistent}

abbrev pub UniqueIds : Store → Type 0
UniqueIds s = IsUnique KnowledgeConclusionRun.conclusion_id s.runs

-- The store after a write that was planned from `r` and meant to leave `r'`: the row had the
-- version of `r`, its version is one more now, and had it been `r` it is `r'`.
pub record Wrote (r r' : KnowledgeConclusionRun) (s s' : Store) : Type 0 where
  pub row : KnowledgeConclusionRun
  pub found : get r.conclusion_id s ≡ some row
  pub at_read_version : row.version ≡ r.version
  pub after : KnowledgeConclusionRun
  pub stored : get r.conclusion_id s' ≡ some after
  pub next_version : after.version ≡ r.version + 1
  pub exact : row ≡ r → after ≡ r'
  pub others : (k : ℕ) → k ≢ r.conclusion_id → get k s' ≡ get k s
  pub unique : UniqueIds s'

-- An UPDATE of the row `id` that matched.
update-Wrote :
    (r r' : KnowledgeConclusionRun) (test : KnowledgeConclusionRun → Bool)
    (change : KnowledgeConclusionRun → KnowledgeConclusionRun) (s s' : Store)
    → ((x : KnowledgeConclusionRun) → (change x).conclusion_id ≡ x.conclusion_id)
    → ((x : KnowledgeConclusionRun) → test x ≡ true → x.version ≡ r.version)
    → ((x : KnowledgeConclusionRun) → (change x).version ≡ r.version + 1)
    → change r ≡ r'
    → s'.runs
      ≡ update (with_key KnowledgeConclusionRun.conclusion_id r.conclusion_id test) change s.runs
    → UniqueIds s
    → matches (with_key KnowledgeConclusionRun.conclusion_id r.conclusion_id test) s.runs ≡ true
    → Wrote r r' s s'
update-Wrote r r' test change s s' keeps versions next goal runs u m =
    let id = r.conclusion_id in
    let key = KnowledgeConclusionRun.conclusion_id in
    elim (Option-cases (get id s)) [
      | inl e ↦ absurd (unmatched e)
      | inr (row, e) ↦
          let t : test row ≡ true = sym (matches-found key id test s.runs u e) ∙ m in
          record {
            row = row;
            found = e;
            at_read_version = versions row t;
            after = change row;
            stored =
                ap (get_row key id) runs
                ∙ subst
                    (λ b.
                      get_row key id (update (with_key key id test) change s.runs)
                      ≡ some (if b then change row else row))
                    t (get_row-update_self key id test change keeps s.runs e);
            next_version = next row;
            exact = λ same. subst (λ x. change x ≡ r') (sym same) goal;
            others = λ k ne.
                ap (get_row key k) runs ∙ get_row-update_ne key id test change keeps k s.runs ne;
            unique =
                subst (IsUnique key) (sym runs) (update-IsUnique key id test change keeps s.runs u);
          }
    ]
  where
    unmatched : get r.conclusion_id s ≡ none → ⊥
    unmatched e =
        let clash : false ≡ true =
          sym (matches-unfound KnowledgeConclusionRun.conclusion_id r.conclusion_id test s.runs e)
          ∙ m in
        cc

-- That an UPDATE of the row `id` matched, and what it left.
abbrev Updated :
    ℕ
    → (KnowledgeConclusionRun → Bool)
    → (KnowledgeConclusionRun → KnowledgeConclusionRun)
    → Store
    → Store
    → Type 0
Updated id test change s s' =
    (matches (with_key KnowledgeConclusionRun.conclusion_id id test) s.runs ≡ true)
    × (s'.runs ≡ update (with_key KnowledgeConclusionRun.conclusion_id id test) change s.runs)

-- Nothing was written, since the run `id` has already succeeded.
abbrev pub Finished : ℕ → Store → Store → Type 0
Finished id s s' =
    (s' ≡ s) × ((x : KnowledgeConclusionRun) × (get id s ≡ some x) × (is_succeeded x.state ≡ true))

module _ (h : Hashing) where
  save-Updated :
      (r' : KnowledgeConclusionRun) (v : ℕ) (d : Option ℕ) (s s' : Store)
      (a : KnowledgeConclusionRun)
      → save h r' v d s ≡ ok s' a
      → Updated r'.conclusion_id (at_version h v) (saved_row h r') s s'
  unfolding save
  save-Updated r' v d s s' a e = ground arith

  pub save-Wrote :
      (r r' : KnowledgeConclusionRun) (v : ℕ) (d : Option ℕ) (s s' : Store)
      (a : KnowledgeConclusionRun)
      → Grows r r'
      → v ≡ r.version
      → saved_row h r' r ≡ r'
      → UniqueIds s
      → save h r' v d s ≡ ok s' a
      → Wrote r r' s s'
  unfolding saved_row
  save-Wrote r r' v d s s' a g ve goal u e =
      let up =
        subst (λ i. Updated i (at_version h v) (saved_row h r') s s') g.same_id
          (save-Updated r' v d s s' a e) in
      update-Wrote r r' (at_version h v) (saved_row h r') s s' (λ x. refl) (λ x t. ground arith)
        (λ x. g.next_version) goal up.1 u up.0

  commit_result-Updated :
      (r' : KnowledgeConclusionRun) (cs : List Citation) (v : ℕ) (d : Option ℕ) (s s' : Store)
      (a : KnowledgeConclusionRun)
      → commit_result h r' cs v d s ≡ ok s' a
      → Finished r'.conclusion_id s s'
        ⊎ Updated r'.conclusion_id (may_commit h v) (committed_row h r') s s'
  unfolding commit_result
  commit_result-Updated r' cs v d s s' a e =
      let id = r'.conclusion_id in
      elim (Bool-cases
        (matches (with_key KnowledgeConclusionRun.conclusion_id id (may_commit h v)) s.runs)) [
          | inl m ↦ inr (m, ground arith)
          | inr m ↦ inl (unmatched m)
        ]
    where
      unmatched :
          matches
              (with_key KnowledgeConclusionRun.conclusion_id r'.conclusion_id (may_commit h v))
              s.runs
            ≡ false
          → Finished r'.conclusion_id s s'
      unmatched m = ground arith

  pub commit_result-Wrote :
      (r r' : KnowledgeConclusionRun) (cs : List Citation) (v : ℕ) (d : Option ℕ) (s s' : Store)
      (a : KnowledgeConclusionRun)
      → Grows r r'
      → v ≡ r.version
      → committed_row h r' r ≡ r'
      → UniqueIds s
      → commit_result h r' cs v d s ≡ ok s' a
      → Finished r.conclusion_id s s' ⊎ Wrote r r' s s'
  unfolding committed_row
  commit_result-Wrote r r' cs v d s s' a g ve goal u e =
      elim (commit_result-Updated r' cs v d s s' a e) [
        | inl same ↦ inl (subst (λ i. Finished i s s') g.same_id same)
        | inr up0 ↦
            let up =
              subst (λ i. Updated i (may_commit h v) (committed_row h r') s s') g.same_id up0 in
            inr (
              update-Wrote r r' (may_commit h v) (committed_row h r') s s' (λ x. refl)
                (λ x t. ground arith) (λ x. g.next_version) goal up.1 u up.0)
      ]

  -- A plan that was executed wrote nothing, or it wrote the staged run of that plan.
  pub execute-Wrote :
      (r : KnowledgeConclusionRun) (p : Plan) (s s' : Store) (a : KnowledgeConclusionRun)
      → Fits h r p
      → UniqueIds s
      → execute h p s ≡ ok s' a
      → (s' ≡ s)
        ⊎ ((r' : KnowledgeConclusionRun) × Grows r r'
            × (IsConsistent h r → IsConsistent h r')
            × Wrote r r' s s')
  unfolding execute
  execute-Wrote r (give run) s s' a f u e = inl (cc)
  execute-Wrote r (refuse x) s s' a f u e = inl (cc)
  execute-Wrote r (save_run r' v d) s s' a f u e =
      inr (r', f.0, f.3, save-Wrote r r' v d s s' a f.0 f.1 f.2 u e)
  execute-Wrote r (commit_run r' cs v d) s s' a f u e =
      elim (commit_result-Wrote r r' cs v d s s' a f.0 f.1 f.2 u e) [
        | inl same ↦ inl same.0
        | inr w ↦ inr (r', f.0, f.3, w)
      ]
