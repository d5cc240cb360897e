-- ===== src/Risk/News.antt =====
-- `_news_evaluation` of risk/policy_core.py: the windows around high-impact events. The audit copies
-- of the events and the provider names are left out; texts are given by their codes.
pub mod Windows
use text.Mathlib.Text.{◌==◌ as str_eq}
use aigold_trader.Base.{
  ℕ, ◌+◌, String, Bool, true, false, ◌&&◌, Option, none, some, List, [], ◌∷◌, ◌++◌, ltb, leb,
  if◌then◌else◌, pos,
}
use aigold_trader.Decimal.{Decimal, dec, ◌<ᵈ◌, ◌*ᵈ◌}
use aigold_trader.Risk.Domain.{RiskPolicy, minutes}
use aigold_trader.Risk.Capacity.{
  PureRiskCode, news_unavailable, news_blackout, news_pre_reduction, news_post_warning,
  news_post_spread_blocked,
}

pub record NewsEvent : Type 0 where
  pub event_id : String
  pub impact : String
  pub scheduled_at : ℕ
  pub available_at : Option ℕ

-- `PureNewsState` after validation: unavailable news has no events.
pub data NewsState : Type 0 where
  unavailable : NewsState
  available : List NewsEvent → NewsState

-- A validated quote: its values are there exactly when it is available.
pub record Quote : Type 0 where
  pub timestamp : ℕ
  pub bid : Decimal
  pub ask : Decimal
  pub spread : Decimal

pub data Window : Type 0 where
  blackout pre post outside : Window

-- `scheduled_at - pre <= as_of` is read as `scheduled_at <= as_of + pre`.
abbrev pub window_at : RiskPolicy → ℕ → ℕ → Window
window_at p now at =
    if leb at (now + minutes p.news_high_impact_blackout_pre_minutes) && leb now at
    then blackout
    else if leb at (now + minutes p.news_high_impact_pre_minutes) && ltb now at
    then pre
    else if ltb at now && leb now (at + minutes p.news_high_impact_post_minutes)
    then post
    else outside

abbrev pub window_of : RiskPolicy → ℕ → NewsEvent → Window
window_of p now e = if str_eq e.impact "HIGH" then window_at p now e.scheduled_at else outside

pub record NewsScan : Type 0 where
  pub in_blackout : Bool
  pub in_pre : Bool
  pub in_post : Bool
  pub relevant : List String

abbrev pub no_news : NewsScan
no_news = record { in_blackout = false; in_pre = false; in_post = false; relevant = [] }

abbrev pub note : Window → String → NewsScan → NewsScan
note blackout id s = record s { in_blackout = true; relevant = s.relevant ++ id ∷ [] }
note pre id s = record s { in_pre = true; relevant = s.relevant ++ id ∷ [] }
note post id s = record s { in_post = true; relevant = s.relevant ++ id ∷ [] }
note outside id s = s

-- The loop over the events.
unfoldable pub scan : RiskPolicy → ℕ → List NewsEvent → NewsScan → NewsScan
scan p now [] s = s
scan p now (e ∷ es) s = scan p now es (note (window_of p now e) e.event_id s)

pub record NewsResult : Type 0 where
  pub target : Decimal
  pub reduced : Bool
  pub warnings : List PureRiskCode
  pub blocks : List PureRiskCode
  -- the provenance, where one is made
  pub provenance : Option NewsScan

abbrev pub spread_unstable : RiskPolicy → Option Quote → Bool
spread_unstable p none = false
spread_unstable p (some q) = p.max_spread_absolute *ᵈ dec (pos 8) 1 <ᵈ q.spread

abbrev pub by_window : RiskPolicy → Option Quote → Decimal → NewsScan → NewsResult
by_window p quote target s =
    let found : Option NewsScan = some s in
    if s.in_blackout
    then record {
      target = target;
      reduced = false;
      warnings = [];
      blocks = news_blackout ∷ [];
      provenance = found;
    }
    else if s.in_pre
    then record {
      target = target *ᵈ p.news_reduction_factor;
      reduced = true;
      warnings = news_pre_reduction ∷ [];
      blocks = [];
      provenance = found;
    }
    else if s.in_post
    then (if spread_unstable p quote
        then record {
          target = target;
          reduced = false;
          warnings = [];
          blocks = news_post_spread_blocked ∷ [];
          provenance = found;
        }
        else record {
          target = target;
          reduced = false;
          warnings = news_post_warning ∷ [];
          blocks = [];
          provenance = found;
        })
    else record { target = target; reduced = false; warnings = []; blocks = []; provenance = found }

unfoldable pub news_evaluation : RiskPolicy → NewsState → Option Quote → ℕ → Decimal → NewsResult
news_evaluation p unavailable quote now target =
    if p.news_risk_enabled
    then record {
      target = target;
      reduced = false;
      warnings = [];
      blocks = news_unavailable ∷ [];
      provenance = some no_news;
    }
    else record { target = target; reduced = false; warnings = []; blocks = []; provenance = none }
news_evaluation p (available events) quote now target =
    if p.news_risk_enabled
    then by_window p quote target (scan p now events no_news)
    else record { target = target; reduced = false; warnings = []; blocks = []; provenance = none }
