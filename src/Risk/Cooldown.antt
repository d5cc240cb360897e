-- ===== src/Risk/Cooldown.antt =====
-- The cooldown after a run of losses: `is_pure_cooldown_active` of risk/policy_core.py and its
-- live twin `is_cooldown_active` of risk/portfolio.py. Instants are UTC.
use aigold_trader.Base.{
  ℕ, ◌+◌, ◌≤◌, ◌<◌, ◌≡◌, ◌↔◌, ◌⊎◌, inl, inr, refl, Bool, true, false, ◌||◌, Option, none, some, ltb,
  leb, if◌then◌else◌, arith, Bool-cases,
}
use aigold_trader.Risk.Domain.{RiskPolicy, AccountSnapshot, minutes}

-- `cooldown_until is not None and effective_now < cooldown_until`
abbrev pub before : ℕ → Option ℕ → Bool
before now none = false
before now (some t) = ltb now t

abbrev pub none_or_before : Option ℕ → ℕ → Bool
none_or_before none last = true
none_or_before (some until) last = ltb until last

-- The part of the function behind the first test, for a last loss at `last`.
abbrev pub after_loss : Option ℕ → ℕ → ℕ → ℕ → Bool × Option ℕ
after_loss until last period now =
    let calculated = last + period in
    if none_or_before until last || ltb now calculated
    then (if ltb now calculated then (true, some calculated) else (false, none))
    else (false, none)

abbrev pub loss_cooldown : Option ℕ → Option ℕ → ℕ → ℕ → Bool × Option ℕ
loss_cooldown until none period now = (false, none)
loss_cooldown until (some last) period now = after_loss until last period now

unfoldable pub is_pure_cooldown_active : AccountSnapshot → RiskPolicy → ℕ → Bool × Option ℕ
is_pure_cooldown_active account policy now =
    if before now account.cooldown_until
    then (true, account.cooldown_until)
    else if leb policy.cooldown_consecutive_losses account.consecutive_losses
    then loss_cooldown account.cooldown_until account.last_loss_at
        (minutes policy.cooldown_period_minutes) now
    else (false, none)

-- The recorded cooldown, or the period after the last loss, is still running.
abbrev IsRunning : Option ℕ → Option ℕ → ℕ → ℕ → ℕ → ℕ → Type 0
IsRunning until last losses threshold period now =
    ((t : ℕ) × (until ≡ some t) × (now < t))
    ⊎ ((t : ℕ) × (last ≡ some t) × (threshold ≤ losses) × (now < t + period))

abbrev cooldown : Option ℕ → Option ℕ → ℕ → ℕ → ℕ → ℕ → Bool × Option ℕ
cooldown until last losses threshold period now =
    if before now until
    then (true, until)
    else if leb threshold losses
    then loss_cooldown until last period now
    else (false, none)

running :
    (u l : Option ℕ) (n k p now : ℕ) → (cooldown u l n k p now).0 ≡ true → IsRunning u l n k p now
running none none n k p now h = absurd (ground arith)
running none (some t) n k p now h = inr (t, refl, ground arith, ground arith)
running (some u) none n k p now h = inl (u, refl, ground arith)
running (some u) (some t) n k p now h = elim (Bool-cases (ltb now u)) [
  | inl e ↦ inl (u, refl, ground arith)
  | inr e ↦ inr (t, refl, ground arith, ground arith)
]

reported :
    (u l : Option ℕ) (n k p now : ℕ) {until : Option ℕ}
    → cooldown u l n k p now ≡ (true, until)
    → (t : ℕ) × (until ≡ some t) × (now < t)
reported none none n k p now h = absurd (ground arith)
reported none (some t) n k p now h = (t + p, ground arith, ground arith)
reported (some u) none n k p now h = (u, ground arith, ground arith)
reported (some u) (some t) n k p now h = elim (Bool-cases (ltb now u)) [
  | inl e ↦ (u, ground arith, ground arith)
  | inr e ↦ (t + p, ground arith, ground arith)
]

abbrev pub IsCoolingDown : AccountSnapshot → RiskPolicy → ℕ → Type 0
IsCoolingDown a p now =
    ((t : ℕ) × (a.cooldown_until ≡ some t) × (now < t))
    ⊎ ((t : ℕ) × (a.last_loss_at ≡ some t)
        × (p.cooldown_consecutive_losses ≤ a.consecutive_losses)
        × (now < t + minutes p.cooldown_period_minutes))

-- A cooldown is reported exactly when the recorded one is running, or when there are losses enough
-- and the period after the last of them is running: an expired record does not hide a newer loss.
pub cooldown_exact :
    (a : AccountSnapshot) (p : RiskPolicy) (now : ℕ)
    → ((is_pure_cooldown_active a p now).0 ≡ true) ↔ IsCoolingDown a p now
unfolding is_pure_cooldown_active
cooldown_exact a p now = (
  running a.cooldown_until a.last_loss_at a.consecutive_losses p.cooldown_consecutive_losses
      (minutes p.cooldown_period_minutes) now,
  back,
)
  where
    back : IsCoolingDown a p now → (is_pure_cooldown_active a p now).0 ≡ true
    back (inl (t, e, h)) = ground arith
    back (inr (t, e, l, h)) = ground arith

-- The end that is reported for a cooldown lies ahead of the evaluation.
pub cooldown_ahead :
    (a : AccountSnapshot) (p : RiskPolicy) (now : ℕ) {until : Option ℕ}
    → is_pure_cooldown_active a p now ≡ (true, until)
    → (t : ℕ) × (until ≡ some t) × (now < t)
unfolding is_pure_cooldown_active
cooldown_ahead a p now h =
    reported a.cooldown_until a.last_loss_at a.consecutive_losses p.cooldown_consecutive_losses
      (minutes p.cooldown_period_minutes) now h
