-- ===== src/Risk/Portfolio/Budget.antt =====
-- The check of the budget in risk/portfolio.py against `_portfolio_capacity` of risk/policy_core.py
-- on the exposure that risk/live_adapter.py builds from the same rows.
pub mod Shape
use aigold_trader.Base.{
  ℕ, ◌+◌, ◌≡◌, refl, sym, ap, ◌∙◌, String, Bool, true, false, Option, none, some, List, [], length,
  leb, if◌then◌else◌, pos, if_false,
}
use aigold_trader.Decimal.{Decimal, zero_dec, ◌<ᵈ◌, ◌≤ᵈ◌, ◌+ᵈ◌, quantize}
use aigold_trader.Risk.Domain.{◌>>=◌, Raises, ok, raised, Direction, RiskPolicy, AccountSnapshot}
use aigold_trader.Risk.Cooldown.{is_pure_cooldown_active}
use aigold_trader.Risk.Capacity.{
  PureRiskCode, cooldown_active, CapacityResult, PortfolioExposureSnapshot, integrity_ok,
  duplicate_active_reservation, portfolio_capacity, capacity_refusal, approved_pct, grant,
  bottleneck, target_risk, available_account, available_symbol, available_direction,
  reservation_duplicate, integrity_refusal, by_refusal, or_else,
}
use aigold_trader.Risk.LiveAdapter.{exposure_of}
use aigold_trader.Risk.Portfolio.{
  RiskReservationRecord, get_active_reservations, has_duplicate, risk_sum, is_cooldown_active,
  ReservationBudgetCheck, refuse, unless_refused, Room, room, budget_refusal, approve, budget_grant,
  budget_of, check_budget_capacity,
}
use aigold_trader.Risk.Portfolio.Budget.Shape.{
  as_check, with_flag, same_grant, flags, ladder, same_count,
}

module _ (rows : List RiskReservationRecord) (account : AccountSnapshot) (policy : RiskPolicy)
    (symbol : String) (direction : Direction) (n : ℕ) where
  abbrev exposure : PortfolioExposureSnapshot
  exposure = exposure_of rows account symbol direction n

  abbrev left : Room
  left = room rows account policy symbol direction

  same_choice :
      (requested : Decimal)
      → approve left policy requested
        ≡ (approved_pct exposure policy requested >>= λ c. ok (with_flag c))
  unfolding approve approved_pct room exposure_of
  same_choice requested =
      flags (bottleneck exposure policy <ᵈ target_risk policy requested)
        (policy.min_risk_per_trade_pct ≤ᵈ bottleneck exposure policy)
        (quantize 4 (bottleneck exposure policy)) (quantize 4 (target_risk policy requested))
        (λ pct. pct <ᵈ requested)

  same_refusal :
      account.open_positions_count ≡ pos n
      → budget_refusal rows account policy left
        ≡ ladder
            (zero_dec <ᵈ account.open_risk_pct)
            (leb policy.max_concurrent_trades (length rows + n))
            (available_account exposure policy <ᵈ policy.min_risk_per_trade_pct)
            (available_symbol exposure policy <ᵈ policy.min_risk_per_trade_pct)
            (available_direction exposure policy <ᵈ policy.min_risk_per_trade_pct)
  unfolding budget_refusal room exposure_of
  same_refusal e =
      ap
        (λ full.
          ladder (zero_dec <ᵈ account.open_risk_pct) full
            (available_account exposure policy <ᵈ policy.min_risk_per_trade_pct)
            (available_symbol exposure policy <ᵈ policy.min_risk_per_trade_pct)
            (available_direction exposure policy <ᵈ policy.min_risk_per_trade_pct))
        (same_count policy.max_concurrent_trades (length rows) n account.open_positions_count e)

same_rest :
    (total equity : Decimal) (m : Raises (Option (Decimal × Option PureRiskCode)))
    → ((m >>= λ c. ok (with_flag c)) >>= budget_grant total equity)
      ≡ as_check (m >>= grant total equity)
same_rest total equity (ok c) = same_grant total equity c
same_rest total equity (raised e) = refl

same_ladder :
    (duplicate : Bool) (refusal : Option PureRiskCode) (total : Decimal)
    (live : Raises ReservationBudgetCheck) (pure : Raises CapacityResult)
    → live ≡ as_check pure
    → (if duplicate
        then ok (refuse total reservation_duplicate)
        else unless_refused refusal total live)
      ≡ as_check (
          by_refusal
            (or_else
              (integrity_refusal (if duplicate then duplicate_active_reservation else integrity_ok))
              refusal)
            total
            pure)
same_ladder true refusal total live pure h = refl
same_ladder false none total live pure h = h
same_ladder false (some c) total live pure h = refl

module _ (rows : List RiskReservationRecord) (account : AccountSnapshot) (policy : RiskPolicy)
    (symbol : String) (direction : Direction) (n : ℕ) where
  abbrev refusal : Option PureRiskCode
  refusal =
      let x = exposure rows account policy symbol direction n in
      or_else
        (integrity_refusal
          (if has_duplicate [] rows then duplicate_active_reservation else integrity_ok))
        (ladder (zero_dec <ᵈ account.open_risk_pct)
          (leb policy.max_concurrent_trades (length rows + n))
          (available_account x policy <ᵈ policy.min_risk_per_trade_pct)
          (available_symbol x policy <ᵈ policy.min_risk_per_trade_pct)
          (available_direction x policy <ᵈ policy.min_risk_per_trade_pct))

  abbrev total : Decimal
  total = account.open_risk_pct +ᵈ risk_sum rows

  abbrev pure_rest : Decimal → Raises CapacityResult
  pure_rest requested =
      approved_pct (exposure rows account policy symbol direction n) policy requested
      >>= grant total account.equity

  same_budget :
      (requested : Decimal)
      → account.open_positions_count ≡ pos n
      → budget_of rows account policy symbol direction requested
        ≡ as_check (by_refusal refusal total (pure_rest requested))
  unfolding budget_of
  same_budget requested e =
      let rest =
        approve (left rows account policy symbol direction n) policy requested
        >>= budget_grant total account.equity in
      ap
        (λ r.
          if has_duplicate [] rows
          then ok (refuse total reservation_duplicate)
          else unless_refused r total rest)
        (same_refusal rows account policy symbol direction n e)
      ∙ same_ladder (has_duplicate [] rows) _ total rest (pure_rest requested) (
          ap (λ m. m >>= budget_grant total account.equity)
            (same_choice rows account policy symbol direction n requested)
          ∙ same_rest total account.equity
              (approved_pct (exposure rows account policy symbol direction n) policy requested))

  pure_refusal :
      (now : ℕ)
      → (is_pure_cooldown_active account policy now).0 ≡ false
      → capacity_refusal (exposure rows account policy symbol direction n) policy account now
        ≡ refusal
  unfolding capacity_refusal exposure_of
  pure_refusal now warm =
      if_false (is_pure_cooldown_active account policy now).0 (some cooldown_active) refusal warm

  same_pure :
      (requested : Decimal) (now : ℕ)
      → (is_pure_cooldown_active account policy now).0 ≡ false
      → portfolio_capacity
          (exposure rows account policy symbol direction n)
          policy
          account
          requested
          now
        ≡ by_refusal refusal total (pure_rest requested)
  unfolding portfolio_capacity exposure_of
  same_pure requested now warm =
      ap (λ r. by_refusal r total (pure_rest requested)) (pure_refusal now warm)

-- The live check of the budget refines the pure one: for an account whose count of open positions
-- is not negative and where no cooldown runs, it gives the decision, the amounts, the exposures and
-- the reason of `_portfolio_capacity` on the exposure built from the active reservations of the
-- account, and it raises where that does.
pub budget_refines :
    (rows : List RiskReservationRecord) (account : AccountSnapshot) (policy : RiskPolicy)
    (symbol : String) (direction : Direction) (requested : Decimal) (now n : ℕ)
    (exclude : Option String)
    → account.open_positions_count ≡ pos n
    → (is_cooldown_active account policy now).0 ≡ false
    → check_budget_capacity rows account policy symbol direction requested now exclude
      ≡ as_check (
          portfolio_capacity
            (exposure_of
              (get_active_reservations rows account.account_id now exclude)
              account
              symbol
              direction
              n)
            policy
            account
            requested
            now)
unfolding check_budget_capacity is_cooldown_active is_pure_cooldown_active
budget_refines rows account policy symbol direction requested now n exclude e warm =
    let kept = get_active_reservations rows account.account_id now exclude in
    if_false (is_cooldown_active account policy now).0
      (ok (refuse account.open_risk_pct cooldown_active)) _ warm
    ∙ same_budget kept account policy symbol direction n requested e
    ∙ sym (ap as_check (same_pure kept account policy symbol direction n requested now warm))
