-- ===== src/Risk/Sizing/Stages.antt =====
-- What the last stages of risk/sizing.py give a valid size.
use aigold_trader.Base.{
  ◌≡◌, ◌∙◌, sym, ap, some, true, false, none, pos, if◌then◌else◌, arith, inl, inr, Bool-cases,
}
use aigold_trader.Decimal.{
  of_int, to_int, ◌*ᵈ◌, div_dec, quantize, Decimal, dec, zero_dec, ◌<ᵈ◌, ◌≤ᵈ◌, ◌+ᵈ◌,
}
use aigold_trader.Decimal.Order.{lt_irrefl}
use aigold_trader.Risk.Domain.{ok, lift, bind-ok, lift-ok, ok-injective, SymbolSpecification}
use aigold_trader.Risk.Sizing.{
  SizingResult, Levels, size_checked, size_volume, size_at, sized, refused, exceeds_approved,
  below_volume_min, loss_per_lot_not_positive, stop_distance_not_positive, loss_per_lot_of,
  worst_distance, capped, quantized_volume,
}

-- What the last stages give a valid result.
pub record IsSized (amount equity distance loss volume : Decimal) (spec : SymbolSpecification)
    (r : SizingResult) : Type 0 where
  pub equity_ratio : Decimal
  pub size_is : r.position_size ≡ capped volume spec
  pub risk_is : quantize 2 (r.position_size *ᵈ r.loss_per_lot) ≡ some r.actual_risk_amount
  pub ratio_is : div_dec r.actual_risk_amount equity ≡ some equity_ratio
  pub pct_is : quantize 4 (equity_ratio *ᵈ of_int (pos 100)) ≡ some r.actual_risk_pct
  pub above_min : (spec.volume_min ≤ᵈ r.position_size) ≡ true
  pub below_max : (r.position_size ≤ᵈ spec.volume_max) ≡ true
  pub within : (r.actual_risk_amount ≤ᵈ amount +ᵈ dec (pos 1) 4) ≡ true
  pub distance_is : r.stop_distance ≡ distance
  pub loss_is : r.loss_per_lot ≡ loss
  pub no_error : r.error ≡ none

capped_bounds :
    (spec : SymbolSpecification) (volume : Decimal)
    → (spec.volume_min ≤ᵈ spec.volume_max) ≡ true
    → (volume <ᵈ spec.volume_min) ≡ false
    → ((spec.volume_min ≤ᵈ capped volume spec) ≡ true)
      × ((capped volume spec ≤ᵈ spec.volume_max) ≡ true)
unfolding ◌≤ᵈ◌
capped_bounds spec volume m p = ground (arith, lt_irrefl spec.volume_max)

module _ (amount equity distance : Decimal) (spec : SymbolSpecification) (r : SizingResult)
    (v : r.is_valid ≡ true) where
  checked_result :
      (loss volume percent risk : Decimal)
      → (if amount +ᵈ dec (pos 1) 4 <ᵈ risk
          then refused exceeds_approved distance loss
          else record {
            is_valid = true;
            position_size = volume;
            actual_risk_amount = risk;
            actual_risk_pct = percent;
            stop_distance = distance;
            loss_per_lot = loss;
            error = none;
          })
        ≡ r
      → (r.position_size ≡ volume)
        × ((r.actual_risk_amount ≤ᵈ amount +ᵈ dec (pos 1) 4) ≡ true)
        × (r.stop_distance ≡ distance)
        × (r.loss_per_lot ≡ loss)
        × (r.error ≡ none)
        × (r.actual_risk_amount ≡ risk)
        × (r.actual_risk_pct ≡ percent)
  unfolding ◌≤ᵈ◌
  checked_result loss volume percent risk e = ground arith

  checked_size :
      (loss volume : Decimal)
      → ((spec.volume_min ≤ᵈ capped volume spec) ≡ true)
        × ((capped volume spec ≤ᵈ spec.volume_max) ≡ true)
      → size_checked amount equity distance loss (capped volume spec) ≡ ok r
      → IsSized amount equity distance loss volume spec r
  unfolding size_checked
  checked_size loss volume (low, high) e =
      let kept = capped volume spec in
      let (risk, e1, f1) = bind-ok (lift (quantize 2 (kept *ᵈ loss))) _ e in
      let (ratio, e2, f2) = bind-ok (lift (div_dec risk equity)) _ f1 in
      let (percent, e3, f3) = bind-ok (lift (quantize 4 (ratio *ᵈ of_int (pos 100)))) _ f2 in
      let (size, below, far, lost, good, risked, share) =
        checked_result loss kept percent risk (ok-injective f3) in
      record {
        equity_ratio = ratio;
        size_is = size;
        risk_is = rw (size, lost, risked) (lift-ok (quantize 2 (kept *ᵈ loss)) e1);
        ratio_is = rw (risked) (lift-ok (div_dec risk equity) e2);
        pct_is = rw (share) (lift-ok (quantize 4 (ratio *ᵈ of_int (pos 100))) e3);
        above_min = rw size low;
        below_max = rw size high;
        within = below;
        distance_is = far;
        loss_is = lost;
        no_error = good;
      }

  size_volume-IsSized :
      (loss volume : Decimal)
      → (spec.volume_min ≤ᵈ spec.volume_max) ≡ true
      → size_volume amount equity distance loss spec volume ≡ ok r
      → IsSized amount equity distance loss volume spec r
  unfolding size_volume
  size_volume-IsSized loss volume m e = elim (Bool-cases (volume <ᵈ spec.volume_min)) [
    | inl p ↦
        let f : ok (refused below_volume_min distance loss) ≡ ok r = rw (p, size_volume) at e in
        ground arith
    | inr p ↦ checked_size loss volume (capped_bounds spec volume m p) (rw (p, size_volume) at e)
  ]

  -- The volume in whole steps, and what it is given.
  abbrev InSteps : Decimal → Type 0
  InSteps loss =
      (raw steps : Decimal) × (div_dec amount loss ≡ some raw)
      × (div_dec raw spec.volume_step ≡ some steps)
      × IsSized amount equity distance loss (of_int (to_int steps) *ᵈ spec.volume_step) spec r

  size_at-IsSized :
      (loss : Decimal)
      → (spec.volume_min ≤ᵈ spec.volume_max) ≡ true
      → size_at amount equity distance spec loss ≡ ok r
      → ((loss ≤ᵈ zero_dec) ≡ false) × InSteps loss
  unfolding size_at quantized_volume
  size_at-IsSized loss m e = elim (Bool-cases (loss ≤ᵈ zero_dec)) [
    | inl p ↦
        let f : ok (refused loss_per_lot_not_positive distance zero_dec) ≡ ok r =
          rw (p, size_at) at e in
        ground arith
    | inr p ↦
        let (volume, e1, f1) =
          bind-ok (quantized_volume amount loss spec) (size_volume amount equity distance loss spec)
            (rw (p, size_at) at e) in
        let (raw, e2, f2) = bind-ok (lift (div_dec amount loss)) _ e1 in
        let (steps, e3, f3) = bind-ok (lift (div_dec raw spec.volume_step)) _ f2 in
        (
          p,
          (
            raw,
            steps,
            lift-ok (div_dec amount loss) e2,
            lift-ok (div_dec raw spec.volume_step) e3,
            size_volume-IsSized loss (of_int (to_int steps) *ᵈ spec.volume_step) m
                (ap (size_volume amount equity distance loss spec) (ok-injective f3) ∙ f1),
          ),
        )
  ]

pub sized-IsSized :
    (l : Levels) (amount equity : Decimal) (spec : SymbolSpecification) (r : SizingResult)
    → (spec.volume_min ≤ᵈ spec.volume_max) ≡ true
    → sized l amount equity spec ≡ ok r
    → (v : r.is_valid ≡ true)
    → let distance = worst_distance l.direction l in
      ((distance ≤ᵈ zero_dec) ≡ false)
      × ((loss ticks : Decimal) × (div_dec distance spec.tick_size ≡ some ticks)
          × (loss ≡ ticks *ᵈ spec.tick_value)
          × ((loss ≤ᵈ zero_dec) ≡ false)
          × InSteps amount equity distance spec r v loss)
unfolding sized loss_per_lot_of
sized-IsSized l amount equity spec r m e v =
    elim (Bool-cases (worst_distance l.direction l ≤ᵈ zero_dec)) [
      | inl p ↦
          let f : ok (refused stop_distance_not_positive zero_dec zero_dec) ≡ ok r =
            rw (p, sized) at e in
          ground arith
      | inr p ↦
          let distance = worst_distance l.direction l in
          let (loss, e1, f1) =
            bind-ok (loss_per_lot_of distance spec) (size_at amount equity distance spec)
              (rw (p, sized) at e) in
          let (q, z) = size_at-IsSized amount equity distance spec r v loss m f1 in
          let (ticks, e2, f2) = bind-ok (lift (div_dec distance spec.tick_size)) _ e1 in
          (
            p,
            (
              loss,
              ticks,
              lift-ok (div_dec distance spec.tick_size) e2,
              sym (ok-injective f2),
              q,
              z,
            ),
          )
    ]
