-- ===== src/Risk/PolicyCore/Outcomes.antt =====
-- The two outcomes of the decision in risk/policy_core.py, stage by stage.
use aigold_trader.Base.{
  ◌≡◌, ◌≢◌, ◌⊎◌, ◌∙◌, inl, inr, refl, sym, Bool, true, false, ◌||◌, some, List, [], ◌∷◌,
  if◌then◌else◌, if_ind, if_true, if_false, ap,
}
use aigold_trader.Decimal.{Decimal, zero_dec, ◌≤ᵈ◌, ◌+ᵈ◌, min_dec, quantize}
use aigold_trader.Risk.Domain.{ok, ◌>>=◌, bind-ok, ok-injective, approved, reduced, blocked}
use aigold_trader.Risk.Sizing.{SizingResult, calculate_position_size}
use aigold_trader.Risk.Sizing.Bounds.{valid_size}
use aigold_trader.Risk.Capacity.{
  PureRiskCode, position_sizing_failed, CapacityResult, portfolio_capacity, risk_amount, bottleneck,
  target_risk,
}
use aigold_trader.Risk.Capacity.Limits.{HasCapacity, capacity_outcome}
use aigold_trader.Risk.News.{NewsResult, news_evaluation}
use aigold_trader.Risk.PolicyCore.Inputs.{PureRiskEvaluationInput}
use aigold_trader.Risk.PolicyCore.Gates.{breaches, blocking_codes}
use aigold_trader.Risk.PolicyCore.Clear.{IsClear, no_codes, List-cases, gate_code-some}
use aigold_trader.Risk.PolicyCore.Evaluate.{
  PureRiskResult, Prepared, prepare, blocked_result, with_sizing, with_capacity, by_blocks, decide,
  levels_of, normalized_requested,
}

module _ (i : PureRiskEvaluationInput) where
  -- What stands behind a decision that is not BLOCKED.
  pub record IsGranted (r : PureRiskResult) : Type 0 where
    pub clear : IsClear i
    pub capacity : HasCapacity i.portfolio i.policy i.account i.as_of
    pub target :
        r.target_risk_pct
        ≡ (news_evaluation i.policy i.news i.quote i.as_of (normalized_requested i)).target
    pub pct :
        quantize 4
          (min_dec (target_risk i.policy r.target_risk_pct) (bottleneck i.portfolio i.policy))
        ≡ some r.approved_risk_pct
    pub amount : risk_amount r.approved_risk_pct i.account.equity ≡ ok r.approved_risk_amount
    pub exposure : r.portfolio_exposure_after ≡ r.portfolio_exposure_before +ᵈ r.approved_risk_pct
    pub sizing : SizingResult
    pub is_sized :
        calculate_position_size
          (levels_of i.trade_plan)
          r.approved_risk_amount
          i.account.equity
          i.symbol_specification
        ≡ ok sizing
    pub size_valid : sizing.is_valid ≡ true
    pub size : r.position_size ≡ sizing.position_size
    pub distance : r.stop_distance ≡ sizing.stop_distance
    pub loss : r.loss_per_lot ≡ sizing.loss_per_lot
    pub above_min : (i.symbol_specification.volume_min ≤ᵈ r.position_size) ≡ true
    pub below_max : (r.position_size ≤ᵈ i.symbol_specification.volume_max) ≡ true
    pub no_codes_block : r.blocked_codes ≡ []

  -- What a decision that is BLOCKED looks like.
  pub record IsRefused (r : PureRiskResult) : Type 0 where
    pub decision : r.decision ≡ blocked
    pub pct : r.approved_risk_pct ≡ zero_dec
    pub amount : r.approved_risk_amount ≡ zero_dec
    pub size : r.position_size ≡ zero_dec
    pub before : r.portfolio_exposure_before ≡ i.account.open_risk_pct
    pub after : r.portfolio_exposure_after ≡ i.account.open_risk_pct
    pub no_warnings : r.warning_codes ≡ []
    pub some_code : (c : PureRiskCode) × (cs : List PureRiskCode) × (r.blocked_codes ≡ c ∷ cs)

  abbrev Outcome : PureRiskResult → Type 0
  Outcome r = IsRefused r ⊎ ((r.decision ≢ blocked) × IsGranted r)

  IsRefused-by :
      (v : Prepared) (codes : List PureRiskCode) (c : PureRiskCode) (cs : List PureRiskCode)
      (loss : Decimal) (r : PureRiskResult)
      → codes ≡ c ∷ cs
      → blocked_result i v codes loss ≡ r
      → IsRefused r
  IsRefused-by v codes c cs loss r g e = rw (← e) (record {
    decision = refl;
    pct = refl;
    amount = refl;
    size = refl;
    before = refl;
    after = refl;
    no_warnings = refl;
    some_code = (c, cs, g);
  })

  not_blocked : (b : Bool) → (if b then reduced else approved) ≢ blocked
  not_blocked true h = cc
  not_blocked false h = cc

  module _ (v : Prepared) (open_gates : IsClear i)
      (aimed : v.news.target
        ≡ (news_evaluation i.policy i.news i.quote i.as_of (normalized_requested i)).target)
      (sane : (i.symbol_specification.volume_min ≤ᵈ i.symbol_specification.volume_max) ≡ true) where
    sized_outcome :
        (capacity : CapacityResult) (sizing : SizingResult)
        → HasCapacity i.portfolio i.policy i.account i.as_of
        → quantize 4
            (min_dec (target_risk i.policy v.news.target) (bottleneck i.portfolio i.policy))
          ≡ some capacity.approved_risk_pct
        → risk_amount capacity.approved_risk_pct i.account.equity ≡ ok capacity.approved_risk_amount
        → capacity.exposure_after ≡ capacity.exposure_before +ᵈ capacity.approved_risk_pct
        → calculate_position_size
            (levels_of i.trade_plan)
            capacity.approved_risk_amount
            i.account.equity
            i.symbol_specification
          ≡ ok sizing
        → Outcome (with_sizing i v capacity sizing)
    unfolding with_sizing
    sized_outcome capacity sizing h q a x e =
        if_ind Outcome sizing.is_valid _ _
          (λ valid.
            let z =
              valid_size (levels_of i.trade_plan) capacity.approved_risk_amount i.account.equity
                i.symbol_specification sizing sane e valid in
            inr (
              not_blocked (capacity.is_reduced || v.news.reduced),
              record {
                clear = open_gates;
                capacity = h;
                target = aimed;
                pct = q;
                amount = a;
                exposure = x;
                sizing = sizing;
                is_sized = e;
                size_valid = valid;
                size = refl;
                distance = refl;
                loss = refl;
                above_min = z.0;
                below_max = z.1;
                no_codes_block = refl;
              },
            ))
          (λ invalid.
            inl (IsRefused-by v _ position_sizing_failed [] sizing.loss_per_lot _ refl refl))

    capacity_stage :
        (capacity : CapacityResult) (r : PureRiskResult)
        → portfolio_capacity i.portfolio i.policy i.account v.news.target i.as_of ≡ ok capacity
        → with_capacity i v capacity ≡ ok r
        → Outcome r
    unfolding with_capacity
    capacity_stage capacity r e =
        elim (capacity_outcome i.portfolio i.policy i.account i.as_of v.news.target capacity e) [
          | inl (refusal, z1, z2, z3, z4, (c, z5, code)) ↦ λ f. inl (
              IsRefused-by v _ c [] zero_dec r (gate_code-some capacity.code c [] code)
                (ok-injective (sym (if_false capacity.allowed _ _ refusal) ∙ f)))
          | inr (grant, h, q, a, before, after) ↦ λ f.
              let (sizing, e1, f1) =
                bind-ok
                  (calculate_position_size (levels_of i.trade_plan) capacity.approved_risk_amount
                    i.account.equity i.symbol_specification)
                  (λ s. ok (with_sizing i v capacity s))
                  (sym (if_true capacity.allowed _ _ grant) ∙ f) in
              rw (← ok-injective f1) (
                sized_outcome capacity sizing h q a
                  (after ∙ ap (λ t. t +ᵈ capacity.approved_risk_pct) (sym before)) e1)
        ]

  pub decide_outcome :
      (v : Prepared) (r : PureRiskResult)
      → breaches i.account i.policy ≡ ok v.facts.breached
      → v.news ≡ news_evaluation i.policy i.news i.quote i.as_of (normalized_requested i)
      → (i.symbol_specification.volume_min ≤ᵈ i.symbol_specification.volume_max) ≡ true
      → decide i v ≡ ok r
      → Outcome r
  unfolding decide
  decide_outcome v r e told sane f =
      elim (List-cases (blocking_codes i v.news.blocks v.facts.breached)) [
        | inl free ↦
            let (capacity, e1, f1) =
              bind-ok (portfolio_capacity i.portfolio i.policy i.account v.news.target i.as_of)
                (with_capacity i v)
                (ap
                    (λ cs. by_blocks i v cs (
                      portfolio_capacity i.portfolio i.policy i.account v.news.target i.as_of
                      >>= with_capacity i v))
                    (sym free)
                  ∙ f) in
            let clear = no_codes i v.facts.breached e (
              ap (λ (n : NewsResult). blocking_codes i n.blocks v.facts.breached) (sym told)
              ∙ free) in
            capacity_stage v clear (ap (λ (n : NewsResult). n.target) told) sane capacity r e1 f1
        | inr (c, cs, some_block) ↦ inl (
            IsRefused-by v _ c cs zero_dec r refl (
              ok-injective (
                ap
                  (λ l. by_blocks i v l (
                    portfolio_capacity i.portfolio i.policy i.account v.news.target i.as_of
                    >>= with_capacity i v))
                  (sym some_block)
                ∙ f)))
      ]

  pub prepared_breaches :
      (v : Prepared)
      → prepare i ≡ ok v
      → (breaches i.account i.policy ≡ ok v.facts.breached)
        × (v.news ≡ news_evaluation i.policy i.news i.quote i.as_of (normalized_requested i))
  unfolding prepare
  prepared_breaches v e =
      let (amount, e1, f1) = bind-ok (risk_amount (normalized_requested i) i.account.equity) _ e in
      let (b, e2, f2) = bind-ok (breaches i.account i.policy) _ f1 in
      let (target, e3, f3) = bind-ok (risk_amount _ i.account.equity) _ f2 in
      (
        e2 ∙ ap (λ w. ok w.facts.breached) (ok-injective f3),
        sym (ap (λ (w : Prepared). w.news) (ok-injective f3)),
      )
