-- ===== src/Risk/Sizing/Bounds.antt =====
-- What a valid or a refused size of risk/sizing.py guarantees.
use aigold_trader.Base.{
  ◌≡◌, ◌∙◌, some, Bool, true, false, ◌||◌, Option, none, pos, arith, inl, inr, if_ind, Option-cases,
}
use aigold_trader.Decimal.{
  of_int, to_int, ◌*ᵈ◌, div_dec, quantize, Decimal, dec, zero_dec, ◌<ᵈ◌, ◌≤ᵈ◌, ◌+ᵈ◌,
}
use aigold_trader.Risk.Domain.{ok, SymbolSpecification}
use aigold_trader.Risk.Sizing.{
  SizingError, SizingResult, Levels, calculate_position_size, size_checked, size_volume, size_at,
  sized, input_error, stop_error, refused, loss_per_lot_of, worst_distance, spec_not_positive,
  capped, quantized_volume,
}
use aigold_trader.Risk.Sizing.Stages.{sized-IsSized}

-- A size that is not valid grants nothing: its volume, its risk and its risk percentage are zero.
pub refused_grants_nothing :
    (l : Levels) (amount equity : Decimal) (spec : SymbolSpecification) (r : SizingResult)
    → calculate_position_size l amount equity spec ≡ ok r
    → r.is_valid ≡ false
    → (r.position_size ≡ zero_dec)
      × (r.actual_risk_amount ≡ zero_dec)
      × (r.actual_risk_pct ≡ zero_dec)
unfolding calculate_position_size input_error sized loss_per_lot_of size_at quantized_volume
    size_volume size_checked
refused_grants_nothing l amount equity spec r e h = ground arith

-- The figures of a valid size: the volume is the approved amount over the loss for each lot, in whole
-- steps and capped, the risk is the loss of that volume to two places, and its percentage that share
-- of the equity to four places.
pub record IsPriced (amount equity : Decimal) (spec : SymbolSpecification) (r : SizingResult)
    : Type 0 where
  pub ticks : Decimal
  pub raw_volume : Decimal
  pub steps : Decimal
  pub equity_ratio : Decimal
  pub ticks_are : div_dec r.stop_distance spec.tick_size ≡ some ticks
  pub loss_is : r.loss_per_lot ≡ ticks *ᵈ spec.tick_value
  pub raw_is : div_dec amount r.loss_per_lot ≡ some raw_volume
  pub steps_are : div_dec raw_volume spec.volume_step ≡ some steps
  pub size_is : r.position_size ≡ capped (of_int (to_int steps) *ᵈ spec.volume_step) spec
  pub risk_is : quantize 2 (r.position_size *ᵈ r.loss_per_lot) ≡ some r.actual_risk_amount
  pub ratio_is : div_dec r.actual_risk_amount equity ≡ some equity_ratio
  pub pct_is : quantize 4 (equity_ratio *ᵈ of_int (pos 100)) ≡ some r.actual_risk_pct

positive : (d : Decimal) → (d ≤ᵈ zero_dec) ≡ false → (zero_dec <ᵈ d) ≡ true
unfolding ◌≤ᵈ◌
positive d h = ground arith

neither : (a b : Bool) → (a || b) ≡ false → (a ≡ false) × (b ≡ false)
neither a b h = ground arith

ordered : (a b : Decimal) → (b <ᵈ a) ≡ false → (a ≤ᵈ b) ≡ true
unfolding ◌≤ᵈ◌
ordered a b h = ground arith

module _ (l : Levels) (amount equity : Decimal) (spec : SymbolSpecification) where
  abbrev Passed : Option SizingError → Type 0
  Passed x =
      x ≡ none
      → ((zero_dec <ᵈ equity) ≡ true)
        × ((zero_dec <ᵈ amount) ≡ true)
        × ((l.entry_lower ≤ᵈ l.entry_upper) ≡ true)
        × (stop_error l.direction l ≡ none)

  guards-Passed : Passed (input_error l amount equity spec)
  unfolding input_error
  guards-Passed =
      if_ind Passed (equity ≤ᵈ zero_dec || amount ≤ᵈ zero_dec) _ _ (λ h e. cc)
        λ h1.
          if_ind Passed (spec_not_positive spec) _ _ (λ h e. cc)
            λ h2.
              if_ind Passed
                (l.entry_lower ≤ᵈ zero_dec || l.entry_upper ≤ᵈ zero_dec || l.stop_loss ≤ᵈ zero_dec)
                _ _ (λ h e. cc)
                λ h3.
                  if_ind Passed (l.entry_upper <ᵈ l.entry_lower) _ _ (λ h e. cc)
                    λ h4 e.
                      let (a, b) = neither (equity ≤ᵈ zero_dec) (amount ≤ᵈ zero_dec) h1 in
                      (
                        positive equity a,
                        positive amount b,
                        ordered l.entry_lower l.entry_upper h4,
                        e,
                      )

-- For a symbol whose least volume does not exceed its greatest, a valid size lies between the two,
-- and its risk is at most the approved amount and a tolerance of 0.0001. The risk is the loss of the
-- size, to two places; the loss for each lot is that of the ticks from the worst entry to the stop;
-- the size is the approved amount over that loss, down to whole steps of the volume and at most the
-- greatest volume; and the risk percentage is the share of the equity, to four places. A valid size
-- is given only for a positive equity and amount, an ordered entry zone, a stop beyond the whole zone
-- at a positive distance from the worst entry, and with a positive loss for each lot.
pub valid_size :
    (l : Levels) (amount equity : Decimal) (spec : SymbolSpecification) (r : SizingResult)
    → (spec.volume_min ≤ᵈ spec.volume_max) ≡ true
    → calculate_position_size l amount equity spec ≡ ok r
    → r.is_valid ≡ true
    → ((spec.volume_min ≤ᵈ r.position_size) ≡ true)
      × ((r.position_size ≤ᵈ spec.volume_max) ≡ true)
      × ((r.actual_risk_amount ≤ᵈ amount +ᵈ dec (pos 1) 4) ≡ true)
      × (r.stop_distance ≡ worst_distance l.direction l)
      × ((zero_dec <ᵈ r.stop_distance) ≡ true)
      × ((zero_dec <ᵈ r.loss_per_lot) ≡ true)
      × (r.error ≡ none)
      × ((zero_dec <ᵈ equity) ≡ true)
      × ((zero_dec <ᵈ amount) ≡ true)
      × ((l.entry_lower ≤ᵈ l.entry_upper) ≡ true)
      × (stop_error l.direction l ≡ none)
      × IsPriced amount equity spec r
unfolding calculate_position_size
valid_size l amount equity spec r m e v = elim (Option-cases (input_error l amount equity spec)) [
  | inl p ↦
      let (near, (loss, ticks, ticked, lost, gain, (raw, steps, raws, stepped, z))) =
        sized-IsSized l amount equity spec r m (rw (p, calculate_position_size) at e) v in
      let (a, b, c, d) = guards-Passed l amount equity spec p in
      (
        z.above_min,
        z.below_max,
        z.within,
        z.distance_is,
        rw z.distance_is (positive _ near),
        rw z.loss_is (positive loss gain),
        z.no_error,
        a,
        b,
        c,
        d,
        record {
          ticks = ticks;
          raw_volume = raw;
          steps = steps;
          equity_ratio = z.equity_ratio;
          ticks_are = rw (z.distance_is) ticked;
          loss_is = z.loss_is ∙ lost;
          raw_is = rw (z.loss_is) raws;
          steps_are = stepped;
          size_is = z.size_is;
          risk_is = z.risk_is;
          ratio_is = z.ratio_is;
          pct_is = z.pct_is;
        },
      )
  | inr (x, p) ↦
      let f : ok (refused x zero_dec zero_dec) ≡ ok r = rw (p, calculate_position_size) at e in
      ground arith
]
