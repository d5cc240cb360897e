-- ===== src/Risk/PolicyCore/Clear.antt =====
-- What it means that no check before the capacity blocks, in risk/policy_core.py.
use text.Mathlib.Text.{◌==◌ as str_eq}
use aigold_trader.Base.{
  not, ◌+◌, ◌≤◌, ◌<◌, ◌≡◌, ◌⊎◌, inl, inr, refl, Bool, true, false, Option, none, some, List, [],
  ◌∷◌, ◌++◌, tests,
}
use aigold_trader.Decimal.{zero_dec, ◌<ᵈ◌, ◌≤ᵈ◌}
use aigold_trader.Risk.Domain.{ok, seconds}
use aigold_trader.Risk.Cooldown.{is_pure_cooldown_active}
use aigold_trader.Risk.Capacity.{PureRiskCode}
use aigold_trader.Risk.News.{news_evaluation}
use aigold_trader.Risk.PolicyCore.Evaluate.{normalized_requested}
use aigold_trader.Risk.PolicyCore.Inputs.{PureRiskEvaluationInput}
use aigold_trader.Risk.PolicyCore.Gates.{
  quote_safety, quote_code, Breaches, breaches, gate, gate_code, later_gates, blocking_codes,
  kill_switch_code, data_health_code, is_terminal, spec_invalid,
}

gate_open :
    (b : Bool) (c : PureRiskCode) (r : List PureRiskCode) → gate b c r ≡ [] → (b ≡ false) × (r ≡ [])
unfolding gate
gate_open true c r h = cc
gate_open false c r h = (refl, h)

code_open :
    (o : Option PureRiskCode) (r : List PureRiskCode) → gate_code o r ≡ [] → (o ≡ none) × (r ≡ [])
unfolding gate_code
code_open none r h = (refl, h)
code_open (some c) r h = cc

append_open : (a b : List PureRiskCode) → a ++ b ≡ [] → (a ≡ []) × (b ≡ [])
append_open [] b h = (refl, h)
append_open (c ∷ a) b h = cc

pub gate_code-some :
    (o : Option PureRiskCode) (c : PureRiskCode) (r : List PureRiskCode)
    → o ≡ some c
    → gate_code o r ≡ c ∷ r
unfolding gate_code
gate_code-some none c r h = cc
gate_code-some (some d) c r h = cc

pub List-cases :
    (l : List PureRiskCode)
    → (l ≡ []) ⊎ ((c : PureRiskCode) × (cs : List PureRiskCode) × (l ≡ c ∷ cs))
List-cases [] = inl refl
List-cases (c ∷ cs) = inr (c, cs, refl)

module _ (i : PureRiskEvaluationInput) where
  -- Every check before the capacity is passed.
  pub record IsClear : Type 0 where
    pub switch : kill_switch_code i.kill_switch ≡ none
    pub health : data_health_code i.data_health ≡ none
    pub no_news_block :
        (news_evaluation i.policy i.news i.quote i.as_of (normalized_requested i)).blocks ≡ []
    pub not_terminal : is_terminal i.candidate_lifecycle_status ≡ false
    pub account_fresh : i.as_of ≤ i.account.as_of + seconds i.policy.account_freshness_seconds
    pub has_equity : (i.account.equity ≤ᵈ zero_dec) ≡ false
    pub no_breach :
        breaches i.account i.policy
        ≡ ok (record {
          daily_loss_breach = false;
          weekly_loss_breach = false;
          max_drawdown_breach = false;
        })
    pub not_cooling : (is_pure_cooldown_active i.account i.policy i.as_of).0 ≡ false
    pub spec_good : spec_invalid i ≡ false
    pub spec_fresh :
        i.as_of
        ≤ i.symbol_specification.observed_at + seconds i.policy.symbol_spec_freshness_seconds
    pub no_open_risk : (zero_dec <ᵈ i.account.open_risk_pct) ≡ false
    pub quote_good : quote_code (quote_safety i.policy i.as_of i.quote) ≡ none
    pub plan_suggested : str_eq i.trade_plan.status "SUGGESTION_ONLY" ≡ true
    pub plan_live : i.as_of < i.trade_plan.expires_at

  pub no_codes :
      (b : Breaches)
      → breaches i.account i.policy ≡ ok b
      → blocking_codes i
          (news_evaluation i.policy i.news i.quote i.as_of (normalized_requested i)).blocks
          b
        ≡ []
      → IsClear
  unfolding blocking_codes later_gates
  no_codes b e h =
      let (h1, r1) = code_open _ _ h in
      let (h2, r2) = code_open _ _ r1 in
      let (h3, r3) = append_open _ _ r2 in
      let (g1, s1) = gate_open _ _ _ r3 in
      let (g2, s2) = gate_open _ _ _ s1 in
      let (g3, s3) = gate_open _ _ _ s2 in
      let (g4, s4) = gate_open _ _ _ s3 in
      let (g5, s5) = gate_open _ _ _ s4 in
      let (g6, s6) = gate_open _ _ _ s5 in
      let (g7, s7) = gate_open _ _ _ s6 in
      let (g8, s8) = gate_open _ _ _ s7 in
      let (g9, s9) = gate_open _ _ _ s8 in
      let (g10, s10) = gate_open _ _ _ s9 in
      let (g11, s11) = code_open _ _ s10 in
      let (g12, s12) = gate_open _ _ _ s11 in
      let (g13, s13) = gate_open _ _ _ s12 in
      record {
        switch = h1;
        health = h2;
        no_news_block = h3;
        not_terminal = g1;
        account_fresh = omega (tests, g2);
        has_equity = g3;
        no_breach = cc;
        not_cooling = g7;
        spec_good = g8;
        spec_fresh = omega (tests, g9);
        no_open_risk = g10;
        quote_good = g11;
        plan_suggested = not_false _ g12;
        plan_live = omega (tests, g13);
      }
    where
      not_false : (b : Bool) → not b ≡ false → b ≡ true
      not_false true k = refl
      not_false false k = cc
