-- ===== src/Authorization/Issued.antt =====
-- What an issued authorization rests on: app/domain/decision/execution_authorization.py.
use stock_agent.Base.{
  ℕ, ◌<◌, ◌≡◌, refl, Bool, true, false, Option, none, some, contains, holds_value, and_true, arith,
}
use stock_agent.Base.Int.{pos, ◌<ℤ◌}
use stock_agent.Authorization.Finalizer.{
  finalized_text, approving_texts, required_keys, decision_snapshot_id_key, portfolio_id_key,
  policy_version_key, Request, Envelope, Refusal, Answer, issued, require, state_of, action_of,
  acts, check_action, is_true, has_keys, all_true, some_checksum, envelope_of, build, check_context,
  finalize,
}

require-issued :
    {b : Bool} (r : Refusal) {a : Answer} {e : Envelope}
    → require b r a ≡ issued e
    → (b ≡ true) × (a ≡ issued e)
unfolding require
require-issued {b = true} r h = (refl, h)
require-issued {b = false} r h = absurd (ground arith)

-- What is asked of the action that a decision names: one that approves, some action that is not
-- passive, and a positive notional.
abbrev pub ActionMeets : Option ℕ → Request → Type 0
ActionMeets none q = Unit
ActionMeets (some a) q =
    (contains a approving_texts ≡ true)
    × (acts q.allowed_actions ≡ true)
    × (pos 0 <ℤ q.max_notional)

-- What is asked of the context of a decision.
abbrev pub ContextMeets : ℕ → Request → Type 0
ContextMeets now q =
    (q.governance_approved ≡ some true)
    × (holds_value (q.lineage policy_version_key) q.policy_version ≡ true)
    × (has_keys q.lineage required_keys ≡ true)
    × (now < q.valid_until)
    × (holds_value (q.lineage decision_snapshot_id_key) q.snapshot_id ≡ true)
    × (holds_value (q.lineage portfolio_id_key) q.portfolio_id ≡ true)

action_checked :
    (o : Option ℕ) (q : Request) (next : Answer) (e : Envelope)
    → check_action o q next ≡ issued e
    → ActionMeets o q × (next ≡ issued e)
action_checked none q next e h = (tt, h)
action_checked (some a) q next e h =
    let (b1, h1) = require-issued _ h in
    let (b2, h2) = require-issued _ h1 in
    let (b3, h3) = require-issued _ h2 in
    let (b4, h4) = require-issued _ h3 in ((b2, b3, ground (arith, b4)), h4)

true_is_some : (o : Option Bool) → is_true o ≡ true → o ≡ some true
true_is_some none h = absurd (ground arith)
true_is_some (some true) h = refl
true_is_some (some false) h = absurd (ground arith)

built :
    (later : ℕ) (q : Request) (e : Envelope)
    → build later q ≡ issued e
    → (later < q.valid_until) × (all_true q.contract_checksums ≡ true) × (e ≡ envelope_of q)
unfolding build
built later q e h =
    let (fields, h1) = require-issued _ h in
    let (time, h2) = require-issued _ h1 in
    let (some_action, h3) = require-issued _ h2 in
    let (sums, h4) = require-issued _ h3 in
    let each = and_true (some_checksum q.contract_checksums) (all_true q.contract_checksums) sums in
    (ground (arith, time), each.1, ground (arith, h4))

context_checked :
    (now later : ℕ) (q : Request) (e : Envelope)
    → check_context now later q ≡ issued e
    → ContextMeets now q × (build later q ≡ issued e)
unfolding check_context
context_checked now later q e h =
    let (c1, h1) = require-issued _ h in
    let (c2, h2) = require-issued _ h1 in
    let (c3, h3) = require-issued _ h2 in
    let (c4, h4) = require-issued _ h3 in
    let (c5, h5) = require-issued _ h4 in
    let (c6, h6) = require-issued _ h5 in
    let (c7, h7) = require-issued _ h6 in
    let (c8, h8) = require-issued _ h7 in
    let (c9, h9) = require-issued _ h8 in
    let (c10, h10) = require-issued _ h9 in
    ((true_is_some q.governance_approved c2, c5, c6, ground (arith, c8), c9, c10), h10)

-- An authorization is issued only for a finalized decision that governance approved, before
-- `valid_until` at both readings of the clock; its policy version, snapshot and portfolio are those
-- of the lineage, which has all required keys; every contract has its checksum; and where the
-- decision names an action, that is one of the approving ones, some allowed action is not passive
-- and the notional is positive. The envelope says what was asked for.
pub issued_is_authorized :
    (now later : ℕ) (q : Request) (e : Envelope)
    → finalize now later q ≡ issued e
    → (holds_value (state_of q.decision) finalized_text ≡ true)
      × ActionMeets (action_of q.decision) q
      × ContextMeets now q
      × (later < q.valid_until)
      × (all_true q.contract_checksums ≡ true)
      × (e ≡ envelope_of q)
unfolding finalize
issued_is_authorized now later q e h =
    let (state, h1) = require-issued _ h in
    let (action, h2) = action_checked (action_of q.decision) q (check_context now later q) e h1 in
    let (context, h3) = context_checked now later q e h2 in
    let (time, sums, same) = built later q e h3 in (state, action, context, time, sums, same)
