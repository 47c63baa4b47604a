-- ===== src/Regime/History.antt =====
-- The history of regimes: at any time exactly one entry is open, and it is the confirmed regime's.
use stock_agent.Base.{
  ℕ, ◌<◌, ◌≡◌, refl, sym, ◌∙◌, ◌≢◌, true, inl, inr, none, some, List, [], ◌∷◌, ◌++◌, arith,
  if◌then◌else◌, Bool-cases,
}
use stock_agent.Regime.{
  Machine, RegimeState, Entry, Store, is_open, latest_start, close_start, close_active_history,
  Signal, advance, advance_from, challenge, count_candidate, may_switch, first_entry, same_regime,
  same_option, on_date, new_day,
}

abbrev pub open_entries : List Entry → List Entry
open_entries [] = []
open_entries (e ∷ es) = if is_open e then e ∷ open_entries es else open_entries es

open_entries-append :
    (h : List Entry) (e : Entry)
    → open_entries h ≡ []
    → is_open e ≡ true
    → open_entries (h ++ e ∷ []) ≡ e ∷ []
open_entries-append [] e n o = ground arith
open_entries-append (x ∷ h) e n o = ground (arith, open_entries-append h e)

none_open-latest : (h : List Entry) → open_entries h ≡ [] → latest_start h ≡ none
none_open-latest [] n = refl
none_open-latest (x ∷ h) n = ground (arith, none_open-latest h)

one_open-latest :
    (h : List Entry) (e : Entry) → open_entries h ≡ e ∷ [] → latest_start h ≡ some e.started_at
one_open-latest [] e o = ground arith
one_open-latest (x ∷ h) e o = ground (arith, one_open-latest h e, none_open-latest h)

close_start-one :
    (day : ℕ) (h : List Entry) (e : Entry)
    → open_entries h ≡ e ∷ []
    → open_entries (close_start e.started_at day h) ≡ []
close_start-one day [] e o = ground arith
close_start-one day (x ∷ h) e o = ground (arith, close_start-one day h e)

close_active-one :
    (day : ℕ) (h : List Entry) (e : Entry)
    → open_entries h ≡ e ∷ []
    → open_entries (close_active_history day h) ≡ []
unfolding close_active_history
close_active-one day h e o =
    rw (one_open-latest h e o, close_active_history) (close_start-one day h e o)

-- Before the first call nothing is open; after it one entry is, that of the confirmed regime
-- since it was confirmed, and a count of days runs only for a candidate.
pub data IsSound (store : Store) : Type 0 where
  unused : store.state ≡ none → open_entries store.history ≡ [] → IsSound store
  in_use :
      (s : RegimeState) (e : Entry)
      → store.state ≡ some s
      → open_entries store.history ≡ e ∷ []
      → e.new_regime ≡ s.confirmed_regime
      → e.started_at ≡ s.confirmed_since
      → 0 < s.confirmed_days
      → (s.candidate_regime ≡ none → s.candidate_days ≡ 0)
      → (s.candidate_regime ≢ none → 0 < s.candidate_days)
      → IsSound store

counted : (g : Signal) (s : RegimeState) → (count_candidate g s).candidate_regime ≢ none
unfolding count_candidate
counted g s = elim (Bool-cases (same_option s.candidate_regime g.candidate)) [
  | inl e ↦ λ n. ground arith
  | inr e ↦ λ n. ground arith
]

counted_days : (g : Signal) (s : RegimeState) → 0 < (count_candidate g s).candidate_days
unfolding count_candidate
counted_days g s = ground arith

pub counted_kept :
    (g : Signal) (s : RegimeState)
    → ((count_candidate g s).confirmed_regime ≡ s.confirmed_regime)
      × ((count_candidate g s).confirmed_since ≡ s.confirmed_since)
      × ((count_candidate g s).confirmed_days ≡ s.confirmed_days)
      × ((count_candidate g s).confidence ≡ s.confidence)
unfolding count_candidate
counted_kept g s = ground arith

challenge-IsSound :
    (m : Machine) (g : Signal) (s : RegimeState) (h : List Entry) (e : Entry)
    → open_entries h ≡ e ∷ []
    → e.new_regime ≡ s.confirmed_regime
    → e.started_at ≡ s.confirmed_since
    → 0 < s.confirmed_days
    → IsSound (challenge m g s h).0
unfolding challenge
challenge-IsSound m g s h e o r since days =
    let k = counted_kept g s in
    elim (Bool-cases (may_switch m g (count_candidate g s))) [
      | inl t ↦
          rw (t, challenge)
            (in_use _ (first_entry (some s.confirmed_regime) g) refl
              (open_entries-append (close_active_history g.trade_date h) _
                (close_active-one g.trade_date h e o) refl)
              refl refl (omega arith) (λ n. refl) (λ n. absurd (n refl)))
      | inr f ↦
          rw (f, challenge)
            (in_use _ e refl o (r ∙ sym k.0) (since ∙ sym k.1) (omega (arith, k.2))
              (λ n. absurd (counted g s n)) (λ n. counted_days g s))
    ]

advance_from-IsSound :
    (m : Machine) (g : Signal) (s : RegimeState) (h : List Entry) (e : Entry)
    → open_entries h ≡ e ∷ []
    → e.new_regime ≡ s.confirmed_regime
    → e.started_at ≡ s.confirmed_since
    → 0 < s.confirmed_days
    → (s.candidate_regime ≡ none → s.candidate_days ≡ 0)
    → (s.candidate_regime ≢ none → 0 < s.candidate_days)
    → IsSound (advance_from m g s h).0
unfolding advance_from
advance_from-IsSound m g s h e o r since days idle busy =
    elim (Bool-cases (on_date s.last_evaluated_date g.trade_date)) [
      | inl t ↦ rw (t, advance_from) (in_use _ e refl o r since days idle busy)
      | inr f ↦ elim (Bool-cases (same_regime g.candidate s.confirmed_regime)) [
        | inl t ↦
            rw (f, t, advance_from)
              (in_use _ e refl o r since (omega arith) (λ n. refl) (λ n. absurd (n refl)))
        | inr f' ↦
            rw (f, f', advance_from)
              (challenge-IsSound m g (new_day g s) h e o r since (omega arith))
      ]
    ]

-- Every call of `advance`, the first included, leaves exactly one entry of the history open, the
-- one of the regime that is confirmed, since the day that it was confirmed.
pub advance-IsSound :
    (m : Machine) (g : Signal) (store : Store) → IsSound store → IsSound (advance m g store).0
unfolding advance
advance-IsSound m g store (unused e n) =
    rw (e, advance)
      (in_use _ (first_entry none g) refl (open_entries-append store.history _ n refl) refl refl
        (omega arith) (λ n. refl) (λ n. absurd (n refl)))
advance-IsSound m g store (in_use s x e o r since days idle busy) =
    rw (e, advance) (advance_from-IsSound m g s store.history x o r since days idle busy)

-- The calls in a row.
unfoldable pub advance_all : Machine → List Signal → Store → Store
advance_all m [] store = store
advance_all m (g ∷ gs) store = advance_all m gs (advance m g store).0

-- However the signals fall, the history of a market that starts empty has at most one open
-- entry, and that is the confirmed regime's.
pub advance_all-IsSound :
    (m : Machine) (gs : List Signal) (store : Store)
    → IsSound store
    → IsSound (advance_all m gs store)
unfolding advance_all
advance_all-IsSound m [] store s = s
advance_all-IsSound m (g ∷ gs) store s = advance_all-IsSound m gs _ (advance-IsSound m g store s)
