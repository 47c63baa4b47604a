-- ===== src/PriceLimit/Band.antt =====
-- The limits that the rules give are a band around the previous close.
use stock_agent.Base.{
  ℕ, ◌+◌, ◌-◌, ◌*◌, ◌/◌, ◌≤◌, ◌<◌, ◌≡◌, refl, subst, ◌⊎◌, inl, inr, Bool, true, false, Option, none,
  some, List, arith, Bool-cases, Option-cases, or_default,
}
use native.Mathlib.Numerals.{unary_clauses}
use native.Mathlib.Nat.{
  le-div_iff_mul-le, div-mul-le_self, mul-le-mul_right, mul-le-mul_left, mul-add,
}
use stock_agent.PriceLimit.Rules.{
  Board, Stage, RawRate, not_finite, negative, millionths, Payload, PriceLimitRule, Resolved, rule,
  invalid_rule, one, Normalized, rate, rejected, normalize_rate, validated, quoted, quoted_up,
  quote_rates, has_no_limit, quote_limit_rule, board_rule, board_of, resolve_price_limit_rule,
}
use stock_agent.PriceLimit.Prices.{
  round_to_tick, limit_up_price, limit_down_price, verdict, TradeRuleContext, rule_of,
  can_buy_with_context, can_sell_with_context,
}

abbrev InRange : Option ℕ → Type 0
InRange none = ⊥
InRange (some n) = (0 < n) × (n ≤ one)

-- Both rates are positive and at most 100%, or there is no limit at all.
abbrev pub IsUsable : Resolved → Type 0
IsUsable (rule r) =
    (r.has_price_limit ≡ false) ⊎ (InRange r.limit_up_pct × InRange r.limit_down_pct)
IsUsable (invalid_rule e) = Unit

normalize_rate-bound : (x : RawRate) (n : ℕ) → normalize_rate x ≡ rate n → n ≤ one
unfolding normalize_rate
normalize_rate-bound not_finite n e = cc
normalize_rate-bound negative n e = cc
normalize_rate-bound (millionths k) n e = ground arith

quoted-IsUsable :
    (b : Board) (x y : Normalized)
    → ((n : ℕ) → x ≡ rate n → n ≤ one)
    → ((n : ℕ) → y ≡ rate n → n ≤ one)
    → IsUsable (quoted b x y)
unfolding validated
quoted-IsUsable b (rejected e) y hx hy = tt
quoted-IsUsable b (rate up) (rejected e) hx hy = tt
quoted-IsUsable b (rate up) (rate down) hx hy = ground (arith, hx up refl, hy down refl)

quoted_up-IsUsable :
    (b : Board) (x : Normalized) → ((n : ℕ) → x ≡ rate n → n ≤ one) → IsUsable (quoted_up b x)
quoted_up-IsUsable b (rejected e) h = tt
quoted_up-IsUsable b (rate up) h =
    quoted-IsUsable b (rate up) (normalize_rate (millionths up)) h
      (normalize_rate-bound (millionths up))

abbrev AllUsable : Option Resolved → Type 0
AllUsable none = Unit
AllUsable (some r) = IsUsable r

quote_rates-IsUsable : (b : Board) (up down : Option RawRate) → AllUsable (quote_rates b up down)
quote_rates-IsUsable b none none = tt
quote_rates-IsUsable b none (some down) =
    quoted-IsUsable b _ _ (normalize_rate-bound down) (normalize_rate-bound down)
quote_rates-IsUsable b (some up) none =
    quoted_up-IsUsable b (normalize_rate up) (normalize_rate-bound up)
quote_rates-IsUsable b (some up) (some down) =
    quoted-IsUsable b _ _ (normalize_rate-bound up) (normalize_rate-bound down)

board_rule-IsUsable : (b : Board) (risk : Bool) (day : ℕ) → IsUsable (board_rule b risk day)
unfolding board_rule validated
board_rule-IsUsable b risk day = ground arith

chosen-IsUsable :
    (o : Option Resolved) (r : Resolved) → AllUsable o → IsUsable r → IsUsable (or_default o r)
chosen-IsUsable none r h h' = h'
chosen-IsUsable (some x) r h h' = h

quote_limit_rule-AllUsable : (b : Board) (p : Payload) → AllUsable (quote_limit_rule b p)
unfolding quote_limit_rule
quote_limit_rule-AllUsable b p = quote_rates-IsUsable b p.limit_up_rate p.limit_down_rate

-- Whatever is given, a rule that is resolved has no limit, or both its rates are positive and at
-- most 100%: what cannot be used is an error.
pub resolved-IsUsable :
    (code : List ℕ) (day : ℕ) (p : Payload) (risk : Option Bool) (stage : Option Stage)
    → IsUsable (resolve_price_limit_rule code day p risk stage)
unfolding resolve_price_limit_rule validated
resolved-IsUsable code day p risk stage =
    let b = board_of code in
    let st : Option Stage = elim stage [ none ↦ p.listing_stage | some s ↦ some s ] in
    let warned : Bool = elim risk [ none ↦ or_default p.risk_warning false | some x ↦ x ] in
    elim (Bool-cases (has_no_limit st)) [
      | inl free ↦ rw free (inl refl)
      | inr limited ↦ rw limited (
          chosen-IsUsable (quote_limit_rule b p) (board_rule b warned day)
            (quote_limit_rule-AllUsable b p) (board_rule-IsUsable b warned day))
    ]

suc_times : (x y : ℕ) → (x + 1) * y ≡ x * y + y
suc_times x y = simp unary_clauses (omega arith)

next_multiple : (x y a b : ℕ) → x * y ≤ a → a + y ≤ b → (x + 1) * y ≤ b
next_multiple x y a b h h' = rw (suc_times x y) (omega (arith, h, h'))

-- Of a larger amount no smaller price is made, and of one that is larger by a tick a larger one.
round_to_tick-lt :
    (n m d tick : ℕ)
    → 0 < d * tick
    → n + d * tick ≤ m
    → round_to_tick n d tick + tick ≤ round_to_tick m d tick
unfolding round_to_tick
round_to_tick-lt n m d tick whole h =
    let unit = d * tick + d * tick in
    let a = n + n + d * tick in
    let b = m + m + d * tick in
    let steps : a / unit + 1 ≤ b / unit =
      (le-div_iff_mul-le {k = unit} (omega (arith, whole))).1
        (next_multiple (a / unit) unit a b (div-mul-le_self a unit) (omega (arith, h))) in
    omega (arith, mul-le-mul_right tick steps, suc_times (a / unit) tick)

-- The limits are at least a tick apart where the upper rate is a tick's worth of the close.
limits_apart :
    (prev up down tick : ℕ)
    → 0 < tick
    → one * tick ≤ prev * up
    → round_to_tick (prev * (one - down)) one tick + tick
      ≤ round_to_tick (prev * (one + up)) one tick
limits_apart prev up down tick t wide =
    let lower : prev * (one - down) ≤ prev * one = mul-le-mul_left prev (omega arith) in
    let upper : prev * (one + up) ≡ prev * one + prev * up = mul-add prev one up in
    round_to_tick-lt (prev * (one - down)) (prev * (one + up)) one tick (omega (arith, t))
      (omega (arith, lower, upper, wide))

-- Without actual limit prices, and with a rule whose upper rate is worth a tick or that sets no
-- limit, no opening price is barred from both sides: what cannot be bought can be sold.
pub one_side_open :
    (c : TradeRuleContext) (r : PriceLimitRule)
    → c.upper_limit_price ≡ none
    → c.lower_limit_price ≡ none
    → rule_of c ≡ rule r
    → 0 < c.tick
    → ((up : ℕ) → r.limit_up_pct ≡ some up → one * c.tick ≤ c.prev_close * up)
    → (can_buy_with_context c ≡ verdict true) ⊎ (can_sell_with_context c ≡ verdict true)
unfolding can_buy_with_context can_sell_with_context limit_up_price limit_down_price
one_side_open c r nu nl e t wide =
    let usable : IsUsable (rule r) =
      subst IsUsable e (resolved-IsUsable c.code c.trade_date c.quote c.quote.risk_warning none) in
    elim usable [
      | inl free ↦ inl (ground (arith, nu, e, free))
      | inr (u, d) ↦ elim (Option-cases r.limit_up_pct) [
        | inl x ↦ absurd (subst InRange x u)
        | inr (up, x) ↦ elim (Option-cases r.limit_down_pct) [
          | inl y ↦ absurd (subst InRange y d)
          | inr (down, y) ↦
              let apart = limits_apart c.prev_close up down c.tick t (wide up x) in
              ground (arith, nu, nl, e, x, y, apart)
        ]
      ]
    ]
