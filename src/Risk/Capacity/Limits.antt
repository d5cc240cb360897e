-- ===== src/Risk/Capacity/Limits.antt =====
-- What `_portfolio_capacity` of risk/policy_core.py promises on each outcome.
use aigold_trader.Base.{
  ℕ, ◌+◌, ◌<◌, ◌≡◌, refl, sym, ◌⊎◌, true, false, Option, none, some, leb, if◌then◌else◌, tests, inl,
  inr, Bool-cases, Option-cases, if_none,
}
use aigold_trader.Decimal.{Decimal, zero_dec, ◌<ᵈ◌, ◌≤ᵈ◌, ◌+ᵈ◌, min_dec, quantize}
use aigold_trader.Decimal.Order.{lt_false→rank, rank→le, min_dec-ge, min_dec-lt, min_dec-ge_self}
use aigold_trader.Risk.Domain.{
  ok, bind-ok, lift-ok, ok-injective, lift, RiskPolicy, AccountSnapshot,
}
use aigold_trader.Risk.Cooldown.{is_pure_cooldown_active}
use aigold_trader.Risk.Capacity.{
  PureRiskCode, ReservationIntegrity, integrity_ok, duplicate_active_reservation, integrity_unknown,
  cooldown_active, unattributed_open_risk, concurrent_limit, symbol_capacity, directional_capacity,
  portfolio_reduction, per_trade_reduction, PortfolioExposureSnapshot, CapacityResult,
  capacity_refusal, available_account, available_symbol, available_direction, bottleneck,
  target_risk, approved_pct, grant, granted, no_capacity, portfolio_capacity, integrity_refusal,
  or_else, account_capacity, risk_amount,
}

passes :
    (i : ReservationIntegrity) (y : Option PureRiskCode)
    → or_else (integrity_refusal i) y ≡ none
    → (i ≡ integrity_ok) × (y ≡ none)
passes integrity_ok y h = (refl, h)
passes duplicate_active_reservation y h = cc
passes integrity_unknown y h = cc

grant-some :
    (total equity pct : Decimal) (code : Option PureRiskCode) (r : CapacityResult)
    → grant total equity (some (pct, code)) ≡ ok r
    → (amount : Decimal) × (risk_amount pct equity ≡ ok amount)
      × (granted total pct amount code ≡ r)
unfolding grant
grant-some total equity pct code r e =
    let (amount, e1, f) = bind-ok (risk_amount pct equity) (λ m. ok (granted total pct m code)) e in
    (amount, e1, ok-injective f)

module _ (x : PortfolioExposureSnapshot) (p : RiskPolicy) (account : AccountSnapshot)
    (now : ℕ) where
  -- No ground of refusal holds.
  pub record HasCapacity : Type 0 where
    pub not_cooling : (is_pure_cooldown_active account p now).0 ≡ false
    pub integrity : x.reservation_integrity ≡ integrity_ok
    pub no_open_risk : (zero_dec <ᵈ x.open_risk_pct) ≡ false
    pub room : x.active_reservation_count + x.open_position_count < p.max_concurrent_trades
    pub account_room : (available_account x p <ᵈ p.min_risk_per_trade_pct) ≡ false
    pub symbol_room : (available_symbol x p <ᵈ p.min_risk_per_trade_pct) ≡ false
    pub direction_room : (available_direction x p <ᵈ p.min_risk_per_trade_pct) ≡ false

  pub no_refusal : capacity_refusal x p account now ≡ none → HasCapacity
  unfolding capacity_refusal
  no_refusal e =
      let (h1, e1) = if_none (is_pure_cooldown_active account p now).0 cooldown_active _ e in
      let (h2, e2) = passes x.reservation_integrity _ e1 in
      let (h3, e3) = if_none (zero_dec <ᵈ x.open_risk_pct) unattributed_open_risk _ e2 in
      let (h4, e4) =
        if_none (leb p.max_concurrent_trades (x.active_reservation_count + x.open_position_count))
          concurrent_limit _ e3 in
      let (h5, e5) =
        if_none (available_account x p <ᵈ p.min_risk_per_trade_pct) account_capacity _ e4 in
      let (h6, e6) =
        if_none (available_symbol x p <ᵈ p.min_risk_per_trade_pct) symbol_capacity _ e5 in
      let (h7, e7) =
        if_none (available_direction x p <ᵈ p.min_risk_per_trade_pct) directional_capacity none
          e6 in
      record {
        not_cooling = h1;
        integrity = h2;
        no_open_risk = h3;
        room = omega (tests, h4);
        account_room = h5;
        symbol_room = h6;
        direction_room = h7;
      }

  bottleneck-ge_min : HasCapacity → (p.min_risk_per_trade_pct ≤ᵈ bottleneck x p) ≡ true
  bottleneck-ge_min h = rank→le p.min_risk_per_trade_pct (bottleneck x p) (
      min_dec-ge (min_dec (available_account x p) (available_symbol x p)) (available_direction x p)
        p.min_risk_per_trade_pct
        (min_dec-ge (available_account x p) (available_symbol x p) p.min_risk_per_trade_pct
          (lt_false→rank (available_account x p) p.min_risk_per_trade_pct h.account_room)
          (lt_false→rank (available_symbol x p) p.min_risk_per_trade_pct h.symbol_room))
        (lt_false→rank (available_direction x p) p.min_risk_per_trade_pct h.direction_room))

  -- The approved percentage is the least of the request, the limit of a trade and what is left of
  -- the three limits, rounded to four places.
  chosen :
      (requested : Decimal) (c : Option (Decimal × Option PureRiskCode))
      → HasCapacity
      → approved_pct x p requested ≡ ok c
      → (pct : Decimal) × (code : Option PureRiskCode) × (c ≡ some (pct, code))
        × (quantize 4 (min_dec (target_risk p requested) (bottleneck x p)) ≡ some pct)
  unfolding approved_pct
  chosen requested c h e = elim (Bool-cases (bottleneck x p <ᵈ target_risk p requested)) [
    | inl lt ↦
        let (pct, e1, f) =
          bind-ok (lift (quantize 4 (bottleneck x p)))
            (λ q. ok (some (q, some portfolio_reduction)))
            (rw (lt, bottleneck-ge_min h, approved_pct) at e) in
        (
          pct,
          some portfolio_reduction,
          sym (ok-injective f),
          rw (min_dec-lt (target_risk p requested) (bottleneck x p) lt)
              (lift-ok (quantize 4 (bottleneck x p)) e1),
        )
    | inr ge ↦
        let (pct, e1, f) =
          bind-ok (lift (quantize 4 (target_risk p requested)))
            (λ q. ok (some (q, if q <ᵈ requested then some per_trade_reduction else none)))
            (rw (ge, approved_pct) at e) in
        (
          pct,
          (if pct <ᵈ requested then some per_trade_reduction else none),
          sym (ok-injective f),
          rw (min_dec-ge_self (target_risk p requested) (bottleneck x p) ge)
              (lift-ok (quantize 4 (target_risk p requested)) e1),
        )
  ]

  abbrev IsAllowed : Decimal → CapacityResult → Type 0
  IsAllowed requested r =
      let total = x.open_risk_pct +ᵈ x.reserved_risk_pct in
      (r.allowed ≡ true)
      × HasCapacity
      × (quantize 4 (min_dec (target_risk p requested) (bottleneck x p)) ≡ some r.approved_risk_pct)
      × (risk_amount r.approved_risk_pct account.equity ≡ ok r.approved_risk_amount)
      × (r.exposure_before ≡ total)
      × (r.exposure_after ≡ total +ᵈ r.approved_risk_pct)

  IsAllowed-outcome :
      (requested : Decimal) (r : CapacityResult) (c : Option (Decimal × Option PureRiskCode))
      → HasCapacity
      → approved_pct x p requested ≡ ok c
      → grant (x.open_risk_pct +ᵈ x.reserved_risk_pct) account.equity c ≡ ok r
      → IsAllowed requested r
  IsAllowed-outcome requested r c h e f =
      let (pct, code, e2, q) = chosen requested c h e in
      let (amount, e3, s) =
        grant-some (x.open_risk_pct +ᵈ x.reserved_risk_pct) account.equity pct code r
          (rw e2 at f) in
      rw (← s) (refl, h, q, e3, refl, refl)

  -- The outcome of the check. A refusal approves nothing and leaves the exposure as it was. An
  -- approval is given only where no ground of refusal holds; it is the least of the request, the
  -- limit of one trade and what is left of the limits of account, symbol and direction, rounded to
  -- four places, the exposure grows by it, and its amount is that percentage of the equity.
  pub capacity_outcome :
      (requested : Decimal) (r : CapacityResult)
      → portfolio_capacity x p account requested now ≡ ok r
      → let total = x.open_risk_pct +ᵈ x.reserved_risk_pct in
        ((r.allowed ≡ false)
          × (r.approved_risk_pct ≡ zero_dec)
          × (r.approved_risk_amount ≡ zero_dec)
          × (r.exposure_before ≡ total)
          × (r.exposure_after ≡ total)
          × ((c : PureRiskCode) × (capacity_refusal x p account now ≡ some c) × (r.code ≡ some c)))
        ⊎ ((r.allowed ≡ true)
            × HasCapacity
            × (quantize 4 (min_dec (target_risk p requested) (bottleneck x p))
                ≡ some r.approved_risk_pct)
            × (risk_amount r.approved_risk_pct account.equity ≡ ok r.approved_risk_amount)
            × (r.exposure_before ≡ total)
            × (r.exposure_after ≡ total +ᵈ r.approved_risk_pct))
  unfolding portfolio_capacity
  capacity_outcome requested r e = elim (Option-cases (capacity_refusal x p account now)) [
    | inl free ↦
        let h = no_refusal free in
        let total = x.open_risk_pct +ᵈ x.reserved_risk_pct in
        let (c, e1, f1) =
          bind-ok (approved_pct x p requested) (grant total account.equity)
            (rw (free, portfolio_capacity) at e) in
        inr (IsAllowed-outcome requested r c h e1 f1)
    | inr (c, full) ↦
        let s : no_capacity (x.open_risk_pct +ᵈ x.reserved_risk_pct) c ≡ r =
          ok-injective (rw (full, portfolio_capacity) at e) in
        inl (rw (← s) (refl, refl, refl, refl, refl, (c, full, refl)))
  ]
