-- ===== src/Calendar/Snapshot.antt =====
-- `SnapshotTradingCalendar` of engines/market/trading_clock.py.
use stock_agent.Base.{
  ℕ, suc, ◌≤◌, ◌<◌, ◌≡◌, refl, ◌≢◌, ◌↔◌, ltb→lt, inl, inr, Bool, true, false, ◌&&◌, Option, none,
  some, List, [], ◌∷◌, arith, leb, ltb, contains, ◌==◌, if◌then◌else◌, min, max, Bool-cases,
  Option-cases,
}
use stock_agent.Calendar.Sessions.{TradingCalendar, IsNext, IsPrevious, Keeps}

pub record CalendarSession : Type 0 where
  pub day : ℕ
  pub is_open : Bool
  pub open_time : ℕ
  pub close_time : ℕ

-- `{item.day: item for item in sessions}`: the later item of a day replaces the earlier.
unfoldable pub put : CalendarSession → List CalendarSession → List CalendarSession
put s [] = s ∷ []
put s (x ∷ xs) = let rest = put s xs in if x.day == s.day then s ∷ xs else x ∷ rest

unfoldable pub put_all : List CalendarSession → List CalendarSession → List CalendarSession
put_all [] kept = kept
put_all (s ∷ ss) kept = put_all ss (put s kept)

abbrev pub item_of : ℕ → List CalendarSession → Option CalendarSession
item_of day [] = none
item_of day (x ∷ xs) = if x.day == day then some x else item_of day xs

-- The days of the open sessions that pass the test.
abbrev pub candidates : (ℕ → Bool) → List CalendarSession → List ℕ
candidates test [] = []
candidates test (x ∷ xs) =
    let rest = candidates test xs in if test x.day && x.is_open then x.day ∷ rest else rest

-- `max` and `min`, none of an empty list.
abbrev pub greatest : List ℕ → Option ℕ
greatest [] = none
greatest (d ∷ ds) = elim (greatest ds) [ none ↦ some d | some e ↦ some (max d e) ]

abbrev pub least : List ℕ → Option ℕ
least [] = none
least (d ∷ ds) = elim (least ds) [ none ↦ some d | some e ↦ some (min d e) ]

abbrev pub is_open_on : ℕ → List CalendarSession → Bool
is_open_on day items = elim (item_of day items) [ none ↦ false | some x ↦ x.is_open ]

abbrev pub times_on : ℕ → List CalendarSession → Option (ℕ × ℕ)
times_on day items = elim (item_of day items) [
  | none ↦ none
  | some x ↦ if x.is_open then some (x.open_time, x.close_time) else none
]

-- `none` is CalendarUnavailable.
unfoldable pub snapshot_calendar : List CalendarSession → TradingCalendar
unfolding put_all put
snapshot_calendar sessions =
    let items = put_all sessions [] in
    record {
      is_trading_day = λ day. is_open_on day items;
      normalize = λ value. greatest (candidates (λ d. leb d value) items);
      next_session = λ value. least (candidates (λ d. ltb value d) items);
      previous_session = λ value. greatest (candidates (λ d. ltb d value) items);
      session_times = λ day. times_on day items;
    }

-- No day is listed twice.
abbrev IsDict : List CalendarSession → Type 0
IsDict [] = Unit
IsDict (x ∷ xs) = (item_of x.day xs ≡ none) × IsDict xs

put-absent :
    (s : CalendarSession) (items : List CalendarSession) (day : ℕ)
    → s.day ≢ day
    → item_of day items ≡ none
    → item_of day (put s items) ≡ none
unfolding put
put-absent s [] day ne e = ground arith
put-absent s (x ∷ xs) day ne e = ground (arith, put-absent s xs day)

put-IsDict :
    (s : CalendarSession) (items : List CalendarSession) → IsDict items → IsDict (put s items)
unfolding put
put-IsDict s [] h = (refl, tt)
put-IsDict s (x ∷ xs) h = ground (arith, put-IsDict s xs, put-absent s xs x.day)

put_all-IsDict : (ss kept : List CalendarSession) → IsDict kept → IsDict (put_all ss kept)
unfolding put_all
put_all-IsDict [] kept h = h
put_all-IsDict (s ∷ ss) kept h = put_all-IsDict ss (put s kept) (put-IsDict s kept h)

candidate_is_open :
    (test : ℕ → Bool) (items : List CalendarSession) (d : ℕ)
    → IsDict items
    → contains d (candidates test items) ≡ true
    → (is_open_on d items ≡ true) × (test d ≡ true)
candidate_is_open test [] d u h = cc
candidate_is_open test (x ∷ xs) d u h = ground (arith, candidate_is_open test xs d)

open_is_candidate :
    (test : ℕ → Bool) (items : List CalendarSession) (d : ℕ)
    → is_open_on d items ≡ true
    → test d ≡ true
    → contains d (candidates test items) ≡ true
open_is_candidate test [] d o t = cc
open_is_candidate test (x ∷ xs) d o t = ground (arith, open_is_candidate test xs d)

least_in : (ds : List ℕ) (e : ℕ) → least ds ≡ some e → contains e ds ≡ true
least_in [] e h = cc
least_in (d ∷ ds) e h = elim (Option-cases (least ds)) [
  | inl n ↦ ground arith
  | inr (m, s) ↦ ground (arith, least_in ds m s)
]

least_exists : (ds : List ℕ) (x : ℕ) → contains x ds ≡ true → least ds ≢ none
least_exists [] x h e = cc
least_exists (d ∷ ds) x h e = elim (Option-cases (least ds)) [
  | inl n ↦ let clash : some d ≡ none = rw n at e in cc
  | inr (m, s) ↦ let clash : some (min d m) ≡ none = rw s at e in cc
]

least_below : (ds : List ℕ) (x e : ℕ) → least ds ≡ some e → contains x ds ≡ true → e ≤ x
least_below [] x e l h = cc
least_below (d ∷ ds) x e l h = elim (Option-cases (least ds)) [
  | inl n ↦ ground (arith, least_exists ds x)
  | inr (m, s) ↦ ground (arith, least_below ds x m s)
]

greatest_in : (ds : List ℕ) (e : ℕ) → greatest ds ≡ some e → contains e ds ≡ true
greatest_in [] e h = cc
greatest_in (d ∷ ds) e h = elim (Option-cases (greatest ds)) [
  | inl n ↦ ground arith
  | inr (m, s) ↦ ground (arith, greatest_in ds m s)
]

greatest_exists : (ds : List ℕ) (x : ℕ) → contains x ds ≡ true → greatest ds ≢ none
greatest_exists [] x h e = cc
greatest_exists (d ∷ ds) x h e = elim (Option-cases (greatest ds)) [
  | inl n ↦ let clash : some d ≡ none = rw n at e in cc
  | inr (m, s) ↦ let clash : some (max d m) ≡ none = rw s at e in cc
]

greatest_above : (ds : List ℕ) (x e : ℕ) → greatest ds ≡ some e → contains x ds ≡ true → x ≤ e
greatest_above [] x e l h = cc
greatest_above (d ∷ ds) x e l h = elim (Option-cases (greatest ds)) [
  | inl n ↦ ground (arith, greatest_exists ds x)
  | inr (m, s) ↦ ground (arith, greatest_above ds x m s)
]

closed_if :
    (items : List CalendarSession) (x : ℕ)
    → (is_open_on x items ≡ true → ⊥)
    → is_open_on x items ≡ false
closed_if items x h = elim (Bool-cases (is_open_on x items)) [ inl o ↦ absurd (h o) | inr c ↦ c ]

ltb_iff : (x d : ℕ) → (ltb x d ≡ true) ↔ (x < d)
ltb_iff x d = ground arith

leb_iff : (x d : ℕ) → (leb x d ≡ true) ↔ (x < suc d)
leb_iff x d = ground arith

module _ (items : List CalendarSession) (u : IsDict items) where
  after_nearest :
      (d e : ℕ)
      → least (candidates (λ x. ltb d x) items) ≡ some e
      → IsNext (λ x. is_open_on x items) d e
  after_nearest d e h =
      let ds = candidates (λ x. ltb d x) items in
      let here = candidate_is_open (λ x. ltb d x) items e u (least_in ds e h) in
      record {
        opens = here.0;
        later = ltb→lt d e here.1;
        first = λ x l r. closed_if items x (λ o. omega (
          arith,
          r,
          least_below ds x e h (open_is_candidate (λ y. ltb d y) items x o (ground arith)),
        ));
      }

  before_nearest :
      (test : ℕ → Bool) (d e : ℕ)
      → ((x : ℕ) → (test x ≡ true) ↔ (x < d))
      → greatest (candidates test items) ≡ some e
      → IsPrevious (λ x. is_open_on x items) d e
  before_nearest test d e means h =
      let ds = candidates test items in
      let here = candidate_is_open test items e u (greatest_in ds e h) in
      record {
        opens = here.0;
        earlier = (means e).0 here.1;
        last = λ x l r. closed_if items x (λ o.
            omega (
              arith,
              l,
              greatest_above ds x e h (open_is_candidate test items x o ((means x).1 r)),
            ));
      }

-- The calendar of any snapshot keeps the contract of a calendar, also where its rows name a day
-- twice.
pub snapshot_calendar-Keeps : (sessions : List CalendarSession) → Keeps (snapshot_calendar sessions)
unfolding snapshot_calendar
snapshot_calendar-Keeps sessions =
    let items = put_all sessions [] in
    let u = put_all-IsDict sessions [] tt in
    record {
      next_nearest = after_nearest items u;
      next_exists =
          λ d x l t. least_exists _ x (open_is_candidate (λ y. ltb d y) items x t (ground arith));
      previous_nearest = λ d. λ e. before_nearest items u (λ y. ltb y d) d e (λ x. ltb_iff x d);
      previous_exists = λ d x l t.
          greatest_exists _ x (open_is_candidate (λ y. ltb y d) items x t (ground arith));
      normal_nearest = λ d. λ e. before_nearest items u (λ y. leb y d) (suc d) e (λ x. leb_iff x d);
      normal_exists = λ d x l t.
          greatest_exists _ x (open_is_candidate (λ y. leb y d) items x t (ground arith));
      times_known = λ d t e. ground arith;
    }
