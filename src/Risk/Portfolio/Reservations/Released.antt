-- ===== src/Risk/Portfolio/Reservations/Released.antt =====
-- What `release_candidate_reservations` of risk/portfolio.py leaves in the table.
use aigold_trader.Base.{
  ℕ, ◌≡◌, refl, String, Bool, true, false, ◌&&◌, Option, none, some, List, All, All-image,
  if◌then◌else◌, if_ind,
}
use aigold_trader.Risk.Portfolio.{RiskReservationRecord, same_candidate}
use aigold_trader.Risk.Portfolio.Reservations.{consistent, release}
use aigold_trader.Risk.Portfolio.Reservations.Release.{
  of_account, is_released_for, release_candidate_reservations,
}
use aigold_trader.Risk.Portfolio.Reservations.Table.{consistent→Consistent, Consistent→consistent}
use aigold_trader.Risk.Portfolio.Reservations.Writes.{release-Consistent}
use aigold_trader.Risk.Portfolio.Reservations.Select.{all_map}

gone : (a b : Bool) → (a && false && b) ≡ false
gone true b = refl
gone false b = refl

module _ (candidate : String) (now : ℕ) (reason : String) (account : Option String)
    (rows : List RiskReservationRecord) where
  pub none_is_left :
      All
        (λ r. is_released_for candidate account r ≡ false)
        (release_candidate_reservations candidate now reason account rows).0
  unfolding release_candidate_reservations
  none_is_left =
      all_map (λ r. is_released_for candidate account r ≡ false)
        (λ r. if is_released_for candidate account r then release now reason r else r)
        (λ r.
          if_ind (λ x. is_released_for candidate account x ≡ false)
            (is_released_for candidate account r) (release now reason r) r
            (λ _.
              gone (same_candidate r.candidate_id (some candidate))
                (of_account account (release now reason r)))
            (λ h. h))
        rows

  pub released-consistent :
      consistent rows ≡ true
      → consistent (release_candidate_reservations candidate now reason account rows).0 ≡ true
  unfolding release_candidate_reservations
  released-consistent h = Consistent→consistent _ (
      release-Consistent (is_released_for candidate account) now reason rows
        (consistent→Consistent rows h))

-- What is released for one candidate stays so, whatever is released for another.
pub stays_released :
    (c other : String) (now : ℕ) (reason : String) (account : Option String)
    (rows : List RiskReservationRecord)
    → All (λ r. is_released_for c none r ≡ false) rows
    → All
        (λ r. is_released_for c none r ≡ false)
        (release_candidate_reservations other now reason account rows).0
unfolding release_candidate_reservations
stays_released c other now reason account rows h =
    All-image (λ r. is_released_for c none r ≡ false)
      (λ r. if is_released_for other account r then release now reason r else r)
      (λ r e.
        if_ind (λ x. is_released_for c none x ≡ false) (is_released_for other account r)
          (release now reason r) r (λ _. gone (same_candidate r.candidate_id (some c)) true)
          (λ _. e))
      rows h
