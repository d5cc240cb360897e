-- ===== src/Risk/AccountState/Updates.antt =====
-- An update of risk/account_state.py that is repeated.
use aigold_trader.Base.{
  ℕ, ◌+◌, ◌≡◌, refl, ap, Bool, true, false, ◌&&◌, ◌||◌, not, Option, none, some, ℤ, eq_ℤ, leb_ℤ,
  ◌==◌, if◌then◌else◌, if_true, if_ind, if_false, arith, le→leb, pos_part, neg_part,
}
use aigold_trader.Decimal.{Decimal, ◌<ᵈ◌, ◌≤ᵈ◌, eq_dec, max_dec}
use aigold_trader.Decimal.Order.{rank→lt_false, max_dec-ge}
use aigold_trader.Risk.AccountState.{PaperAccountState}
use aigold_trader.Risk.AccountState.Change.{
  Update, changes, after_change, same_time, changes_time, after_time, after_peak,
  has_economic_change, update_state,
}

eq_dec_refl : (d : Decimal) → eq_dec d d ≡ true
unfolding eq_dec ◌≤ᵈ◌
eq_dec_refl d = let h : (d <ᵈ d) ≡ false = rank→lt_false d d (omega arith) in rw h refl

eq_ℕ-refl : (n : ℕ) → (n == n) ≡ true
eq_ℕ-refl n = ground arith

leb_ℤ-refl : (a : ℤ) → leb_ℤ a a ≡ true
leb_ℤ-refl a = le→leb (pos_part a + neg_part a) (pos_part a + neg_part a) (omega arith)

eq_ℤ-refl : (a : ℤ) → eq_ℤ a a ≡ true
eq_ℤ-refl a = both (leb_ℤ a a) (leb_ℤ-refl a)
  where
    both : (b : Bool) → b ≡ true → (b && b) ≡ true
    both b h = ground arith

not-false : (b : Bool) → not b ≡ false → b ≡ true
not-false b h = ground arith

-- A value that is given again is in force, and a value in force changes nothing.
module _ {A : Type 0} (same : A → A → Bool) (same-refl : (x : A) → same x x ≡ true) where
  unchanged : (o : Option A) (old : A) → changes same o (after_change same o old) ≡ false
  unchanged none old = refl
  unchanged (some new) old =
      if_ind (λ (x : A). not (same new x) ≡ false) (same new old) old new (λ e. ap not e)
        (λ _. ap not (same-refl new))

  kept : (o : Option A) (x : A) → changes same o x ≡ false → after_change same o x ≡ x
  kept none x h = refl
  kept (some new) x h = if_true (same new x) x new (not-false (same new x) h)

  again :
      (o : Option A) (old : A)
      → after_change same o (after_change same o old) ≡ after_change same o old
  again o old = kept o (after_change same o old) (unchanged o old)

unchanged_time : (o old : Option ℕ) → changes_time o (after_time o old) ≡ false
unchanged_time none old = refl
unchanged_time (some t) old =
    if_ind (λ (u : Option ℕ). not (same_time t u) ≡ false) (same_time t old) old (some t)
      (λ e. ap not e) (λ _. ap not (eq_ℕ-refl t))

again_time : (o old : Option ℕ) → after_time o (after_time o old) ≡ after_time o old
again_time none old = refl
again_time (some t) old =
    let u = after_time (some t) old in
    if_true (same_time t u) u (some t) (not-false (same_time t u) (unchanged_time (some t) old))

again_peak :
    (o : Option Decimal) (equity peak : Decimal)
    → after_peak o (after_change eq_dec o equity) (after_peak o equity peak)
      ≡ after_peak o equity peak
again_peak none equity peak = refl
again_peak (some new) equity peak =
    let e = after_change eq_dec (some new) equity in
    let p = after_peak (some new) equity peak in
    if_true (eq_dec new e) p (max_dec p new)
      (not-false (eq_dec new e) (unchanged eq_dec eq_dec_refl (some new) equity))

or_false : {a b : Bool} → a ≡ false → b ≡ false → (a || b) ≡ false
or_false {a = a} {b = b} h k = ground arith

no_change :
    (u : Update) (now : ℕ) (s : PaperAccountState)
    → has_economic_change u (update_state u now s) ≡ false
unfolding has_economic_change update_state
no_change u now s =
    let d = unchanged eq_dec eq_dec_refl in
    or_false
      (or_false
        (or_false
          (or_false
            (or_false
              (or_false
                (or_false
                  (or_false
                    (or_false
                      (or_false (or_false (d u.new_balance s.balance) (d u.new_equity s.equity))
                        (d u.new_free_margin s.free_margin))
                      (d u.new_daily_pnl s.daily_realized_pnl))
                    (d u.new_weekly_pnl s.weekly_realized_pnl))
                  (d u.new_floating_pnl s.floating_pnl))
                (d u.new_open_risk_pct s.open_risk_pct))
              (d u.new_reserved_risk_pct s.reserved_risk_pct))
            (unchanged eq_ℤ eq_ℤ-refl u.new_positions_count s.open_positions_count))
          (unchanged ◌==◌ eq_ℕ-refl u.new_consecutive_losses s.consecutive_losses))
        (unchanged_time u.new_last_loss_at s.last_loss_at))
      (unchanged_time u.new_cooldown_until s.cooldown_until)

two_choices :
    (b : Bool) (p e m n : Decimal)
    → (p <ᵈ e) ≡ false
    → (m <ᵈ n) ≡ false
    → ((if b then p else m) <ᵈ (if b then e else n)) ≡ false
two_choices true p e m n h k = h
two_choices false p e m n h k = k

-- An update that is repeated moves only the time of the observation: the state that the first one
-- leaves already has every value that was given, so that the second one neither counts up the
-- version nor moves the time of the change. And an equity that was not above its peak is not above
-- it afterwards.
pub update_once :
    (u : Update) (now later : ℕ) (s : PaperAccountState)
    → (update_state u later (update_state u now s)
        ≡ record (update_state u now s) { last_observed_at = later })
      × ((s.peak_equity <ᵈ s.equity) ≡ false
          → ((update_state u now s).peak_equity <ᵈ (update_state u now s).equity) ≡ false)
unfolding update_state
update_once u now later s = (same_state, peak u.new_equity)
  where
    d :
        (o : Option Decimal) (old : Decimal)
        → after_change eq_dec o (after_change eq_dec o old) ≡ after_change eq_dec o old
    d o old = again eq_dec eq_dec_refl o old

    same_state :
        update_state u later (update_state u now s)
        ≡ record (update_state u now s) { last_observed_at = later }
    same_state =
        let same = no_change u now s in
        λ i. record {
          account_id = s.account_id;
          state_version =
              if_false (has_economic_change u (update_state u now s))
                ((update_state u now s).state_version + 1) ((update_state u now s).state_version)
                same i;
          balance = d u.new_balance s.balance i;
          equity = d u.new_equity s.equity i;
          free_margin = d u.new_free_margin s.free_margin i;
          daily_realized_pnl = d u.new_daily_pnl s.daily_realized_pnl i;
          weekly_realized_pnl = d u.new_weekly_pnl s.weekly_realized_pnl i;
          floating_pnl = d u.new_floating_pnl s.floating_pnl i;
          peak_equity = again_peak u.new_equity s.equity s.peak_equity i;
          open_risk_pct = d u.new_open_risk_pct s.open_risk_pct i;
          reserved_risk_pct = d u.new_reserved_risk_pct s.reserved_risk_pct i;
          open_positions_count =
              again eq_ℤ eq_ℤ-refl u.new_positions_count s.open_positions_count i;
          consecutive_losses = again ◌==◌ eq_ℕ-refl u.new_consecutive_losses s.consecutive_losses i;
          last_loss_at = again_time u.new_last_loss_at s.last_loss_at i;
          cooldown_until = again_time u.new_cooldown_until s.cooldown_until i;
          state_updated_at =
              if_false (has_economic_change u (update_state u now s)) later
                ((update_state u now s).state_updated_at) same i;
          last_observed_at = later;
        }

    peak :
        (o : Option Decimal)
        → (s.peak_equity <ᵈ s.equity) ≡ false
        → (after_peak o s.equity s.peak_equity <ᵈ after_change eq_dec o s.equity) ≡ false
    peak none h = h
    peak (some new) h =
        two_choices (eq_dec new s.equity) s.peak_equity s.equity (max_dec s.peak_equity new) new h
          (rank→lt_false (max_dec s.peak_equity new) new ((max_dec-ge s.peak_equity new).1))
