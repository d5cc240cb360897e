-- ===== src/Risk/AccountState/Recovery.antt =====
-- A snapshot of risk/account_state.py carries the state: what is lost is recovered from it.
use text.Mathlib.Text.{◌==◌ as str_eq}
use text.Mathlib.TextEquality.{eq_iff}
use aigold_trader.Base.{
  ℕ, ◌<◌, ◌≡◌, ◌≢◌, ◌⊎◌, ◌∙◌, refl, sym, ap, String, Bool, true, false, ◌&&◌, Option, none, some,
  List, [], ◌∷◌, ◌++◌, All, ltb, ◌==◌, if◌then◌else◌, some_eq, if_ind, if_true, if_false,
  Bool-cases, inl, inr, arith, le→ltb_false,
}
use aigold_trader.Decimal.{Decimal, zero_dec, ◌<ᵈ◌}
use aigold_trader.Risk.Domain.{Raises, ok, raised, validation_error, ok-injective}
use aigold_trader.Risk.AccountState.{
  PaperAccountState, PaperSnapshot, AccountSnapshotRecord, Account, AccountTables, find_state,
  newer, latest_snapshot, first_state, or_created, get_or_create_paper_state,
}
use aigold_trader.Risk.AccountState.Change.{put_state}
use aigold_trader.Risk.AccountState.Observe.{
  raised_peak, snapshot_of, valid_snapshot, record_of, observed, refresh_paper_account_snapshot,
}

-- Of another account, or older.
abbrev IsBefore : String → ℕ → AccountSnapshotRecord → Type 0
IsBefore id now r = (str_eq r.account_id id ≡ false) ⊎ (r.as_of < now)

newest :
    (id : String) (rows : List AccountSnapshotRecord) (new : AccountSnapshotRecord)
    → str_eq new.account_id id ≡ true
    → All (IsBefore id new.as_of) rows
    → latest_snapshot id (rows ++ new ∷ []) ≡ some new
unfolding latest_snapshot
newest id [] new e h = if_true (str_eq new.account_id id) (some new) none e
newest id (r ∷ rows) new e (h, rest) =
    let ih = newest id rows new e rest in
    let before = latest_snapshot id (rows ++ new ∷ []) in
    ap
      (λ (o : Option AccountSnapshotRecord). if str_eq r.account_id id then some (newer r o) else o)
      ih
    ∙ elim h [
      | inl other ↦ if_false (str_eq r.account_id id) (some (newer r (some new))) (some new) other
      | inr old ↦
          ap (λ (x : AccountSnapshotRecord). if str_eq r.account_id id then some x else some new)
            (if_false (ltb new.as_of r.as_of) r new
              (le→ltb_false new.as_of r.as_of (omega (arith, old))))
          ∙ if_ind (λ (o : Option AccountSnapshotRecord). o ≡ some new) (str_eq r.account_id id)
              (some new) (some new) (λ _. refl) (λ _. refl)
    ]

find_state-id :
    (id : String) (rows : List PaperAccountState) (s : PaperAccountState)
    → find_state id rows ≡ some s
    → str_eq s.account_id id ≡ true
unfolding find_state
find_state-id id [] s h = cc
find_state-id id (r ∷ rows) s h = elim (Bool-cases (str_eq r.account_id id)) [
  | inl e ↦
      let same : r ≡ s =
        some_eq (sym (if_true (str_eq r.account_id id) (some r) (find_state id rows) e) ∙ h) in
      ap (λ (x : PaperAccountState). str_eq x.account_id id) (sym same) ∙ e
  | inr e ↦
      find_state-id id rows s
        (sym (if_false (str_eq r.account_id id) (some r) (find_state id rows) e) ∙ h)
]

-- The version 0, which a payload cannot tell from none, is left out.
version_kept : (v : ℕ) → v ≢ 0 → (if v == 0 then 1 else v) ≡ v
version_kept v h = ground arith

second_of : (a b : Bool) → a ≡ false → (a && b) ≡ false
second_of a b h = ground arith

peak_kept : (peak equity : Decimal) → (peak <ᵈ equity) ≡ false → raised_peak peak equity ≡ peak
peak_kept peak equity h =
    if_false (peak <ᵈ equity && zero_dec <ᵈ equity) equity peak
      (second_of (peak <ᵈ equity) (zero_dec <ᵈ equity) h)

returned_as :
    (b : Bool) (x y : PaperSnapshot × AccountTables)
    → (if b then ok x else raised validation_error) ≡ ok y
    → x ≡ y
returned_as true x y h = ok-injective h
returned_as false x y h = cc

-- A state whose row is lost is recovered from the last forced snapshot: with no row of the state left,
-- the next look for it creates the state that the snapshot was taken of, up to the two instants of
-- its change and its observation. The state had a version other than 0 and no equity above its peak,
-- and the older snapshots of the account were taken before.
pub refresh_recovers :
    (a : Account) (s : PaperAccountState) (t : AccountTables) (now later age : ℕ) (id : String)
    (p : PaperSnapshot) (after : AccountTables)
    → find_state a.canonical_id t.states ≡ some s
    → s.state_version ≢ 0
    → (s.peak_equity <ᵈ s.equity) ≡ false
    → All (λ r. (str_eq r.account_id a.canonical_id ≡ false) ⊎ (r.as_of < now)) t.snapshots
    → refresh_paper_account_snapshot a true now age id t ≡ ok (p, after)
    → (get_or_create_paper_state a later (record after { states = [] })).0
      ≡ record s { state_updated_at = now; last_observed_at = later }
unfolding get_or_create_paper_state refresh_paper_account_snapshot find_state
refresh_recovers a s t now later age id p after found version peak older h =
    let own =
      (eq_iff s.account_id a.canonical_id).0 (find_state-id a.canonical_id t.states s found) in
    let observing = record s { last_observed_at = now } in
    let t2 = record t { states = put_state observing t.states } in
    let made = snapshot_of observing id now in
    let run : observed a now observing id none t2 ≡ ok (p, after) =
      sym (
        ap (λ (r : PaperAccountState × AccountTables). observe r.0 r.1)
          (ap (λ o. or_created a now o t) found))
      ∙ h in
    let rows : after.snapshots ≡ t.snapshots ++ record_of made ∷ [] = sym (
      ap (λ (q : PaperSnapshot × AccountTables). q.1.snapshots)
        (returned_as (valid_snapshot made)
          (made, record t2 { snapshots = t.snapshots ++ record_of made ∷ [] }) (p, after) run)) in
    let last : latest_snapshot a.canonical_id after.snapshots ≡ some (record_of made) =
      ap (latest_snapshot a.canonical_id) rows
      ∙ newest a.canonical_id t.snapshots (record_of made)
          (find_state-id a.canonical_id t.states s found) older in
    ap (λ o. first_state a o later) last ∙ restored own
  where
    observe : PaperAccountState → AccountTables → Raises (PaperSnapshot × AccountTables)
    observe x y =
        let seen = record x { last_observed_at = now } in
        observed a now seen id none (record y { states = put_state seen y.states })

    restored :
        s.account_id ≡ a.canonical_id
        → first_state a (some (record_of (snapshot_of s id now))) later
          ≡ record s { state_updated_at = now; last_observed_at = later }
    restored own = λ i. record {
      account_id = sym own i;
      state_version = version_kept s.state_version version i;
      balance = s.balance;
      equity = s.equity;
      free_margin = s.free_margin;
      daily_realized_pnl = s.daily_realized_pnl;
      weekly_realized_pnl = s.weekly_realized_pnl;
      floating_pnl = s.floating_pnl;
      peak_equity = peak_kept s.peak_equity s.equity peak i;
      open_risk_pct = s.open_risk_pct;
      reserved_risk_pct = s.reserved_risk_pct;
      open_positions_count = s.open_positions_count;
      consecutive_losses = s.consecutive_losses;
      last_loss_at = s.last_loss_at;
      cooldown_until = s.cooldown_until;
      state_updated_at = now;
      last_observed_at = later;
    }
