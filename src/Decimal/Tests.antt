-- ===== src/Decimal/Tests.antt =====
-- Decimal arithmetic at values that Python prints.
use aigold_trader.Base.{◌≡◌, refl, true, false, none, some, pos, negsuc}
use aigold_trader.Decimal.{
  dec, of_int, zero_dec, ◌+ᵈ◌, ◌-ᵈ◌, ◌*ᵈ◌, div_dec, quantize, to_int, ◌<ᵈ◌, ◌≤ᵈ◌,
}

-- 1.25 + 0.5, 1.25 - 2, 1.5 * 0.02, 1 / 4, 2 / 3, 0 / 5, 5 / 0
arithmetic :
    (dec (pos 125) 2 +ᵈ dec (pos 5) 1 ≡ dec (pos 175) 2)
    × (dec (pos 125) 2 -ᵈ of_int (pos 2) ≡ dec (negsuc 74) 2)
    × (dec (pos 15) 1 *ᵈ dec (pos 2) 2 ≡ dec (pos 30) 3)
    × (div_dec (of_int (pos 1)) (of_int (pos 4)) ≡ some (dec (pos 25) 2))
    × (div_dec (of_int (pos 2)) (of_int (pos 3)) ≡ some (dec (pos 6666666666666666666666666667) 28))
    × (div_dec (of_int (pos 100)) (of_int (pos 10)) ≡ some (of_int (pos 10)))
    × (div_dec (of_int (pos 5)) zero_dec ≡ none)
unfolding dec of_int zero_dec ◌+ᵈ◌ ◌-ᵈ◌ ◌*ᵈ◌ div_dec
arithmetic = (refl, refl, refl, refl, refl, refl, refl)

-- 0.50005 and 0.50015 to four places, -7.9 to an integer, 0.1 + 1e28 loses the tenth.
rounding :
    (quantize 4 (dec (pos 50005) 5) ≡ some (dec (pos 5000) 4))
    × (quantize 4 (dec (pos 50015) 5) ≡ some (dec (pos 5002) 4))
    × (quantize 2 (of_int (pos 1000000000000000000000000000)) ≡ none)
    × (to_int (dec (negsuc 78) 1) ≡ negsuc 6)
    × (dec (pos 1) 1 +ᵈ of_int (pos 9000000000000000000000000000)
        ≡ of_int (pos 9000000000000000000000000000))
    × ((dec (pos 10) 2 ≤ᵈ dec (pos 1) 1) ≡ true)
    × ((dec (pos 10) 2 <ᵈ dec (pos 1) 1) ≡ false)
unfolding dec of_int quantize to_int ◌+ᵈ◌ ◌≤ᵈ◌ ◌<ᵈ◌
rounding = (refl, refl, refl, refl, refl, refl, refl)
