-- ===== src/Proc/Percent.antt =====
-- RoundDouble of Assignment_2/myps.c and mytop.c and the percentages that it is used for. A `long
-- double` is a fraction here: the rounding of the hardware is left out.
use native.Mathlib.Nat.{native_laws, add-mul-div_right, pow-suc, pow-succ', div-lt_iff_lt-mul}
use native.Mathlib.Numerals.{add-one}
use ssu_operating_system.Base.{
  ℕ, zero, suc, ◌+◌, ◌*◌, ◌/◌, ◌%◌, ◌^◌, ◌≤◌, ◌<◌, ◌≡◌, ◌∙◌, ◌⊎◌, false, ◌||◌, inl, inr, ltb, leb,
  ◌==◌, if◌then◌else◌, arith,
}

-- `for (…) tmp *= 10`, so many times, on the numerator.
unfoldable pub scale : ℕ → ℕ → ℕ
scale zero n = n
scale (suc k) n = scale k (n * 10)

-- `RoundDouble(num / den, rdx)`, as a number of units of the last digit kept.
unfoldable pub round_double : ℕ → ℕ → ℕ → ℕ
unfolding scale
round_double num den zero = num / den
round_double num den (suc rdx) =
    let tmp = scale (suc rdx + 1) num in
    let val = (tmp / den) % 10 in
    let kept = tmp / (den * 10) in if leb 5 val then kept + 1 else kept

-- `num / den * 100` with `isnan`, `isinf` and the bounds, rounded to tenths.
unfoldable pub percent : ℕ → ℕ → ℕ
unfolding round_double
percent num den = if den == 0 then 0 else if ltb den num then 0 else round_double (num * 100) den 1

scale_lem : (k n : ℕ) → scale k n ≡ n * 10 ^ k
unfolding scale
scale_lem zero n = omega arith
scale_lem (suc k) n = rw (scale_lem k (n * 10), pow-succ' 10 k) (grind arith)

-- One digit more than is kept, cut off, decides between the two neighbours.
nearest :
    (x d : ℕ)
    → 0 < d
    → (if leb 5 (x / d % 10) then x / (d * 10) + 1 else x / (d * 10)) ≡ (x + 5 * d) / (d * 10)
nearest x d p =
    rw
      (
        ← native_laws.div-div-eq-div-mul x d 10,
        ← native_laws.div-div-eq-div-mul (x + 5 * d) d 10,
        add-mul-div_right x 5 p,
      )
      (ground arith)

-- RoundDouble gives the nearest number with so many digits behind the point, the greater one from the
-- middle between two on.
round_double-nearest :
    (num den rdx : ℕ)
    → 0 < den
    → round_double num den (suc rdx) ≡ (2 * (num * 10 ^ suc rdx) + den) / (2 * den)
unfolding round_double
round_double-nearest num den rdx p =
    let n = scale (suc rdx + 1) num in
    nearest (scale (suc rdx + 1) num) den p
    ∙ rw (scale_lem (suc rdx + 1) num, same_top, same_bottom)
        (native_laws.mul-div-mul_left (2 * (num * 10 ^ suc rdx) + den) (2 * den) five)
  where
    five : 0 < 5
    five = omega arith

    same_top : num * 10 ^ (suc rdx + 1) + 5 * den ≡ 5 * (2 * (num * 10 ^ suc rdx) + den)
    same_top = rw (add-one (suc rdx), pow-suc 10 (suc rdx)) (grind arith)

    same_bottom : den * 10 ≡ 5 * (2 * den)
    same_bottom = omega arith

percent-inside :
    (num den : ℕ) → 0 < den → num ≤ den → percent num den ≡ (2 * (num * 100 * 10) + den) / (2 * den)
unfolding percent
percent-inside num den p l =
    let whole : (den == 0) ≡ false = ground arith in
    let inside : ltb den num ≡ false = ground arith in
    rw (whole, inside) (round_double-nearest (num * 100) den 0 p)

percent-outside : (num den : ℕ) → (den ≡ 0) ⊎ (den < num) → percent num den ≡ 0
unfolding percent
percent-outside num den h = ground (arith, h)

nearest-le : (num den : ℕ) → 0 < den → num ≤ den → (2 * (num * 100 * 10) + den) / (2 * den) ≤ 1000
nearest-le num den p l =
    let two : 0 < 2 * den = omega arith in
    let below : 2 * (num * 100 * 10) + den < 1001 * (2 * den) = omega arith in
    omega (arith, (div-lt_iff_lt-mul two).1 below)

whole : (num den : ℕ) → (den ≡ 0) ⊎ ((den < num) ⊎ ((0 < den) × (num ≤ den)))
whole num den = ground arith

percent_by_case :
    (num den : ℕ)
    → percent num den
      ≡ (if den == 0 || ltb den num then 0 else (2 * (num * 100 * 10) + den) / (2 * den))
percent_by_case num den = elim (whole num den) [
  | inl e ↦ rw (percent-outside num den (inl e)) (ground (arith, e))
  | inr (inl l) ↦ rw (percent-outside num den (inr l)) (ground (arith, l))
  | inr (inr (p, l)) ↦ rw (percent-inside num den p l) (ground (arith, p, l))
]

percent-bound : (num den : ℕ) → percent num den ≤ 1000
percent-bound num den = elim (whole num den) [
  | inl e ↦ omega (arith, percent-outside num den (inl e))
  | inr (inl l) ↦ omega (arith, percent-outside num den (inr l))
  | inr (inr (p, l)) ↦ rw (percent-inside num den p l) (nearest-le num den p l)
]

-- A percentage is the nearest number of tenths, the greater one from the middle between two on, where
-- the part is no more than the whole and the whole is not 0, and else 0; it is never more than 100.
pub percent-nearest :
    (num den : ℕ)
    → (percent num den
        ≡ (if den == 0 || ltb den num then 0 else (2 * (num * 100 * 10) + den) / (2 * den)))
      × (percent num den ≤ 1000)
percent-nearest num den = (percent_by_case num den, percent-bound num den)
