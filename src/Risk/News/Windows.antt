-- ===== src/Risk/News/Windows.antt =====
-- When the news of risk/policy_core.py block or reduce a trade.
use text.Mathlib.Text.{◌==◌ as str_eq}
use aigold_trader.Base.{
  ℕ, ◌+◌, ◌≤◌, ◌≡◌, ◌↔◌, ◌∙◌, refl, sym, Bool, true, false, ◌||◌, Option, List, [], ◌∷◌,
  if◌then◌else◌, arith, any,
}
use aigold_trader.Decimal.{Decimal}
use aigold_trader.Risk.Domain.{RiskPolicy, minutes}
use aigold_trader.Risk.Capacity.{news_blackout}
use aigold_trader.Risk.News.{
  NewsEvent, available, Quote, Window, blackout, pre, post, outside, window_of, NewsResult,
  NewsScan, no_news, note, scan, by_window, news_evaluation,
}

abbrev pub is_blackout : Window → Bool
is_blackout blackout = true
is_blackout _ = false

module _ (p : RiskPolicy) (now : ℕ) where
  -- The flag is raised by the first event in its blackout, and no later event takes it down.
  scan-blackout :
      (es : List NewsEvent) (s : NewsScan)
      → (scan p now es s).in_blackout
        ≡ (s.in_blackout || any (λ e. is_blackout (window_of p now e)) es)
  unfolding scan
  scan-blackout [] s = ground arith
  scan-blackout (e ∷ es) s =
      scan-blackout es (note (window_of p now e) e.event_id s)
      ∙ raised (window_of p now e) (any (λ e. is_blackout (window_of p now e)) es)
    where
      raised :
          (w : Window) (rest : Bool)
          → ((note w e.event_id s).in_blackout || rest) ≡ (s.in_blackout || (is_blackout w || rest))
      raised blackout rest = ground arith
      raised pre rest = ground arith
      raised post rest = ground arith
      raised outside rest = ground arith

  -- A high-impact event that is due within the blackout time, and not past, blocks.
  blackout_window :
      (e : NewsEvent)
      → str_eq e.impact "HIGH" ≡ true
      → now ≤ e.scheduled_at
      → e.scheduled_at ≤ now + minutes p.news_high_impact_blackout_pre_minutes
      → is_blackout (window_of p now e) ≡ true
  blackout_window e high ahead near = rw high (ground arith)

  enabled :
      (news : List NewsEvent) (quote : Option Quote) (target : Decimal)
      → p.news_risk_enabled ≡ true
      → news_evaluation p (available news) quote now target
        ≡ by_window p quote target (scan p now news no_news)
  unfolding news_evaluation
  enabled news quote target on = first p.news_risk_enabled _ _ on
    where
      first : (b : Bool) (x y : NewsResult) → b ≡ true → (if b then x else y) ≡ x
      first true x y e = refl
      first false x y e = cc

  blackout_only :
      (quote : Option Quote) (target : Decimal) (s : NewsScan)
      → (by_window p quote target s).blocks ≡ news_blackout ∷ []
      → s.in_blackout ≡ true
  blackout_only quote target s h = ground arith

  -- With news risk enabled and news available, trading is blocked for a blackout exactly when some
  -- event is of high impact and in its blackout window.
  pub blackout_exact :
      (es : List NewsEvent) (quote : Option Quote) (target : Decimal)
      → p.news_risk_enabled ≡ true
      → ((news_evaluation p (available es) quote now target).blocks ≡ news_blackout ∷ [])
        ↔ (any (λ e. is_blackout (window_of p now e)) es ≡ true)
  blackout_exact es quote target on =
      let scanned : (scan p now es no_news).in_blackout
          ≡ any (λ e. is_blackout (window_of p now e)) es =
        scan-blackout es no_news in
      (
        (λ h.
            sym scanned
            ∙ blackout_only quote target (scan p now es no_news)
                (rw (enabled es quote target on) at h)),
        λ h. rw (enabled es quote target on) (simp (scanned ∙ h)),
      )
