-- ===== src/Ai/Budget/Started.antt =====
-- The set of started attempts of a reservation in budget.py: distinct numbers from 1 to the
-- authorized count, so no more of them than that count.
use aigold_trader.Base.{
  ℕ, zero, suc, ◌+◌, ◌≤◌, ◌≡◌, refl, false, List, [], ◌∷◌, arith, if◌then◌else◌, ◌==◌, length, All,
}
use aigold_trader.Ai.Budget.Domain.{contains, add_attempt}

abbrev pub IsDistinct : List ℕ → Type 0
IsDistinct [] = Unit
IsDistinct (x ∷ xs) = (contains x xs ≡ false) × IsDistinct xs

abbrev pub IsBelow : ℕ → List ℕ → Type 0
IsBelow n = All (λ a. (1 ≤ a) × (a ≤ n))

abbrev remove : ℕ → List ℕ → List ℕ
remove k [] = []
remove k (x ∷ xs) = if k == x then remove k xs else x ∷ remove k xs

contains-remove : (y k : ℕ) (xs : List ℕ) → contains y xs ≡ false → contains y (remove k xs) ≡ false
contains-remove y k [] h = refl
contains-remove y k (x ∷ xs) h = ground (arith, contains-remove y k xs)

remove-IsDistinct : (k : ℕ) (xs : List ℕ) → IsDistinct xs → IsDistinct (remove k xs)
remove-IsDistinct k [] h = tt
remove-IsDistinct k (x ∷ xs) h = ground (arith, remove-IsDistinct k xs h.1, contains-remove x k xs)

remove-absent : (k : ℕ) (xs : List ℕ) → contains k xs ≡ false → remove k xs ≡ xs
remove-absent k [] h = refl
remove-absent k (x ∷ xs) h = ground (arith, remove-absent k xs)

length-le-remove : (k : ℕ) (xs : List ℕ) → IsDistinct xs → length xs ≤ length (remove k xs) + 1
length-le-remove k [] h = omega arith
length-le-remove k (x ∷ xs) h =
    ground (arith, length-le-remove k xs h.1, remove-absent k xs, ap_length k xs)
  where
    ap_length : (j : ℕ) (ys : List ℕ) → remove j ys ≡ ys → length (remove j ys) ≡ length ys
    ap_length j ys e = cc

remove-IsBelow : (n : ℕ) (xs : List ℕ) → IsBelow (suc n) xs → IsBelow n (remove (suc n) xs)
remove-IsBelow n [] h = tt
remove-IsBelow n (x ∷ xs) h = ground (arith, remove-IsBelow n xs h.1)

pub length-le_of_IsBelow : (n : ℕ) (xs : List ℕ) → IsDistinct xs → IsBelow n xs → length xs ≤ n
length-le_of_IsBelow zero [] d b = omega arith
length-le_of_IsBelow zero (x ∷ xs) d b = absurd (omega (arith, b.0))
length-le_of_IsBelow (suc n) xs d b = omega (
  arith,
  length-le-remove (suc n) xs d,
  length-le_of_IsBelow n (remove (suc n) xs) (remove-IsDistinct (suc n) xs d)
      (remove-IsBelow n xs b),
)

pub IsBelow-suc : (n : ℕ) (xs : List ℕ) → IsBelow n xs → IsBelow (n + 1) xs
IsBelow-suc n [] h = tt
IsBelow-suc n (x ∷ xs) h = ground (arith, IsBelow-suc n xs h.1)

pub add_attempt-IsDistinct : (a : ℕ) (xs : List ℕ) → IsDistinct xs → IsDistinct (add_attempt a xs)
add_attempt-IsDistinct a xs h = ground arith
