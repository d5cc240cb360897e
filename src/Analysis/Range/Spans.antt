-- ===== src/Analysis/Range/Spans.antt =====
-- What the dealing range of analysis/engine.py spans.
use aigold_trader.Base.{
  ℕ, suc, ◌<◌, ◌≡◌, ◌⊎◌, ◌∙◌, ap, refl, sym, inl, inr, Bool, true, false, ◌&&◌, not, Option, none,
  some, List, [], ◌∷◌, get_elem?, ltb, if◌then◌else◌, if_true, if_false, Bool-cases, some_eq, arith,
  ltb→lt, pos,
}
use aigold_trader.Decimal.{of_int, dec, ◌≤ᵈ◌, ◌-ᵈ◌, ◌+ᵈ◌, div_dec}
use aigold_trader.Risk.Domain.{Raises, ok, lift}
use aigold_trader.Analysis.Domain.{
  bullish, bearish, Scope, internal, external, Side, high, low, SwingPoint, DealingRange,
}
use aigold_trader.Analysis.Returns.{Returns, Returns-any, Returns-if, returned}
use aigold_trader.Analysis.Indicators.{rounded}
use aigold_trader.Analysis.Engine.{Setup, AnalysisEngine, tolerance}
use aigold_trader.Analysis.Engine.Breaks.{find_last, or_else}
use aigold_trader.Analysis.Range.{
  last_bar, needed, is_scope, range_direction, range_record, is_high, other_kind, lower_price,
  upper_price, retraced, range_between, spans, previous_of, range_or, try_range, last_swing,
  dealing_range,
}

abbrev pub IsLast : {A : Type 0} → (A → Bool) → List A → A → Type 0
IsLast p xs x = (p x ≡ true) × ((i : ℕ) × (get_elem? xs i ≡ some x))

found_later :
    {A : Type 0} (p : A → Bool) (y : A) (xs : List A) (x : A) (o : Option A)
    → ((z : A) → o ≡ some z → IsLast p xs z)
    → or_else o (if p y then some y else none) ≡ some x
    → IsLast p (y ∷ xs) x
found_later p y xs x (some z) f q = let (holds, (i, at)) = f x q in (holds, (suc i, at))
found_later p y xs x none f q = elim (Bool-cases (p y)) [
  | inl t ↦
      let same : y ≡ x = some_eq (sym (if_true (p y) (some y) none t) ∙ q) in
      (ap p (sym same) ∙ t, (0, ap some same))
  | inr n ↦ let e : none ≡ some x = sym (if_false (p y) (some y) none n) ∙ q in cc
]

-- The element that is found passes and stands in the list.
pub find_last-some :
    {A : Type 0} (p : A → Bool) (xs : List A) (x : A) → find_last p xs ≡ some x → IsLast p xs x
unfolding find_last
find_last-some p [] x h = cc
find_last-some p (y ∷ xs) x h =
    found_later p y xs x (find_last p xs) (λ z e. find_last-some p xs z e) h

-- The two ends, of which the last one tells the direction.
abbrev pub Ends : DealingRange → SwingPoint → SwingPoint → Type 0
Ends r last previous =
    ((last.kind ≡ high)
      × (previous.kind ≡ low)
      × (r.direction ≡ bullish)
      × (r.lower_bound ≡ previous.price)
      × (r.upper_bound ≡ last.price))
    ⊎ ((last.kind ≡ low)
        × (previous.kind ≡ high)
        × (r.direction ≡ bearish)
        × (r.lower_bound ≡ last.price)
        × (r.upper_bound ≡ previous.price))

pub record Spanning (s : Setup) (e : AnalysisEngine) (r : DealingRange) : Type 0 where
  pub last : SwingPoint
  pub previous : SwingPoint
  pub last_held : (i : ℕ) × (get_elem? e.swings i ≡ some last)
  pub previous_held : (i : ℕ) × (get_elem? e.swings i ≡ some previous)
  pub one_scope : previous.scope ≡ last.scope
  pub ends : Ends r last previous
  pub in_order : previous.swing_time < last.swing_time
  pub is_wide : (r.upper_bound -ᵈ r.lower_bound ≤ᵈ tolerance s) ≡ false
  pub origin : r.origin_time ≡ previous.swing_time
  pub confirmed : r.confirmed_at ≡ last.confirmed_at
  pub named : r.swing_ids ≡ previous.id ∷ last.id ∷ []

abbrev pub Spanned : Setup → AnalysisEngine → Option DealingRange → Type 0
Spanned s e none = Unit
Spanned s e (some r) = Spanning s e r

same_scope : (a b c : Scope) → is_scope a c ≡ true → is_scope b c ≡ true → a ≡ b
same_scope internal internal internal h k = refl
same_scope external external external h k = refl
same_scope internal external internal h k = cc
same_scope internal external external h k = cc
same_scope external internal internal h k = cc
same_scope external internal external h k = cc
same_scope internal internal external h k = refl
same_scope external external internal h k = refl

both : (a b : Bool) → (a && b) ≡ true → (a ≡ true) × (b ≡ true)
both a b h = ground arith

not-true : (b : Bool) → not b ≡ true → b ≡ false
not-true b h = ground arith

-- The ends of two swings of different kinds.
Ends-other_kind :
    (r : DealingRange) (last previous : SwingPoint) (a b : Side)
    → last.kind ≡ a
    → previous.kind ≡ b
    → other_kind a b ≡ true
    → r.direction ≡ range_direction last.kind
    → r.lower_bound ≡ lower_price last previous
    → r.upper_bound ≡ upper_price last previous
    → Ends r last previous
Ends-other_kind r last previous high high p q h d l u = cc
Ends-other_kind r last previous low low p q h d l u = cc
Ends-other_kind r last previous high low p q h d l u = inl (
  p,
  q,
  d ∙ ap range_direction p,
  l ∙ ap (λ k. if is_high k then previous.price else last.price) p,
  u ∙ ap (λ k. if is_high k then last.price else previous.price) p,
)
Ends-other_kind r last previous low high p q h d l u = inr (
  p,
  q,
  d ∙ ap range_direction p,
  l ∙ ap (λ k. if is_high k then previous.price else last.price) p,
  u ∙ ap (λ k. if is_high k then last.price else previous.price) p,
)

module _ (s : Setup) (e : AnalysisEngine) where
  between-Spanned :
      (last previous : SwingPoint)
      → (i : ℕ) × (get_elem? e.swings i ≡ some last)
      → (i : ℕ) × (get_elem? e.swings i ≡ some previous)
      → previous.scope ≡ last.scope
      → other_kind last.kind previous.kind ≡ true
      → spans s last previous ≡ true
      → Returns (Spanned s e) (range_between s e.bars last previous)
  unfolding range_between
  between-Spanned last previous hl hp same kinds h =
      let bottom = lower_price last previous in
      let top = upper_price last previous in
      let (ordered, wide) =
        both (ltb previous.swing_time last.swing_time) (not (top -ᵈ bottom ≤ᵈ tolerance s)) h in
      let P = Spanned s e in
      Returns-any P (lift (div_dec (top +ᵈ bottom) (of_int (pos 2)))) _ (λ half.
        Returns-any P (rounded half) _ (λ eq. Returns-any P (needed (last_bar e.bars)) _ (λ bar.
          Returns-any P (rounded (retraced last.kind bottom top (dec (pos 62) 2))) _ (λ r62.
            Returns-any P (rounded (retraced last.kind bottom top (dec (pos 79) 2)))
              (λ r79. ok (some (range_record s last previous bar eq r62 r79)))
              (λ r79. record {
                last = last;
                previous = previous;
                last_held = hl;
                previous_held = hp;
                one_scope = same;
                ends =
                    Ends-other_kind (range_record s last previous bar eq r62 r79) last previous
                      last.kind previous.kind refl refl kinds refl refl refl;
                in_order = ltb→lt previous.swing_time last.swing_time ordered;
                is_wide = not-true (top -ᵈ bottom ≤ᵈ tolerance s) wide;
                origin = refl;
                confirmed = refl;
                named = refl;
              })))))

  range_or-Spanned :
      (scope : Scope) (last : SwingPoint) (o : Option SwingPoint)
      (next : Raises (Option DealingRange))
      → IsLast (λ w. is_scope w.scope scope) e.swings last
      → ((w : SwingPoint)
          → o ≡ some w
          → IsLast (λ w. is_scope w.scope scope && other_kind last.kind w.kind) e.swings w)
      → Returns (Spanned s e) next
      → Returns (Spanned s e) (range_or s e.bars last o next)
  range_or-Spanned scope last none next hl f k = k
  range_or-Spanned scope last (some previous) next hl f k =
      Returns-if (Spanned s e) (spans s last previous) (range_between s e.bars last previous) next
        (λ h.
          let (fits, at) = f previous refl in
          let (scoped, kinds) =
            both (is_scope previous.scope scope) (other_kind last.kind previous.kind) fits in
          between-Spanned last previous hl.1 at
            (same_scope previous.scope last.scope scope scoped hl.0) kinds h)
        (λ _. k)

  try_range-Spanned :
      (scope : Scope) (o : Option SwingPoint) (next : Raises (Option DealingRange))
      → ((w : SwingPoint) → o ≡ some w → IsLast (λ w. is_scope w.scope scope) e.swings w)
      → Returns (Spanned s e) next
      → Returns (Spanned s e) (try_range s e scope o next)
  try_range-Spanned scope none next f k = k
  try_range-Spanned scope (some last) next f k =
      range_or-Spanned scope last (previous_of scope e.swings last) next (f last refl)
        (λ w h.
          find_last-some (λ w. is_scope w.scope scope && other_kind last.kind w.kind) e.swings w h)
        k

-- A dealing range spans two swings that the engine holds: of one scope, a high and a low, of which
-- the later one gives the direction and the time of confirmation, and the earlier one the time of
-- origin. Its bounds are their prices, the low below, and they are further apart than the tolerance
-- as the code computes it.
pub dealing_range-Spanning :
    (s : Setup) (e : AnalysisEngine) (r : DealingRange)
    → dealing_range s e ≡ ok (some r)
    → Spanning s e r
unfolding dealing_range
dealing_range-Spanning s e r h =
    let found = λ (scope : Scope) (w : SwingPoint) (q : last_swing scope e.swings ≡ some w).
      find_last-some (λ w. is_scope w.scope scope) e.swings w q in
    returned (Spanned s e) (dealing_range s e)
      (try_range-Spanned s e external (last_swing external e.swings) _ (found external) (
        try_range-Spanned s e internal (last_swing internal e.swings) (ok none) (found internal)
          tt))
      h
