-- ===== src/Calculator/Word.antt =====
-- The `int` of the system calls of Assignment_3: sums and products wrap round to 32 bits, as the kernel
-- is compiled, and the remainder has the sign of the dividend.
use native.Mathlib.Nat.{mod-lt, div-add-mod'}
use ssu_operating_system.Base.{
  ℕ, zero, suc, ◌+◌, ◌-◌, ◌*◌, ◌/◌, ◌%◌, ◌^◌, ◌<◌, ◌≡◌, refl, Bool, true, false, not, ◌&&◌, ◌||◌,
  Option, none, some, ltb, ◌==◌, if◌then◌else◌, arith, ◌⊎◌, inl, inr, Bool-cases, ltb→lt, if-none,
  subst, sym, some_eq,
}
use ssu_operating_system.Base.Int.{ℤ, pos, negsuc, is_negative, eqb}

-- The value of 32 bits.
abbrev signed : ℕ → ℤ
signed w = if ltb w (2 ^ 31) then pos w else negsuc (2 ^ 32 - 1 - w)

unfoldable pub to_int : ℤ → ℤ
to_int (pos n) = signed (n % 2 ^ 32)
to_int (negsuc n) = signed (2 ^ 32 - 1 - n % 2 ^ 32)

abbrev negate : ℤ → ℤ
negate (pos zero) = pos zero
negate (pos (suc n)) = negsuc n
negate (negsuc n) = pos (suc n)

-- `m - n` of natural numbers.
abbrev difference : ℕ → ℕ → ℤ
difference m n = if ltb m n then negsuc (n - m - 1) else pos (m - n)

unfoldable pub add : ℤ → ℤ → ℤ
add (pos a) (pos b) = pos (a + b)
add (pos a) (negsuc b) = difference a (b + 1)
add (negsuc a) (pos b) = difference b (a + 1)
add (negsuc a) (negsuc b) = negsuc (a + b + 1)

unfoldable pub subtract : ℤ → ℤ → ℤ
unfolding add
subtract a b = add a (negate b)

abbrev magnitude : ℤ → ℕ
magnitude (pos n) = n
magnitude (negsuc n) = n + 1

-- The number of that magnitude, with a sign.
abbrev with_sign : Bool → ℕ → ℤ
with_sign false n = pos n
with_sign true zero = pos zero
with_sign true (suc n) = negsuc n

abbrev differ : Bool → Bool → Bool
differ true b = not b
differ false b = b

unfoldable pub multiply : ℤ → ℤ → ℤ
multiply a b = with_sign (differ (is_negative a) (is_negative b)) (magnitude a * magnitude b)

-- `%`; by 0, and of the least `int` by -1, the processor traps.
unfoldable pub remainder : ℤ → ℤ → Option ℤ
remainder a b =
    if magnitude b == 0 || (eqb a (negsuc (2 ^ 31 - 1)) && eqb b (negsuc 0))
    then none
    else some (with_sign (is_negative a) (magnitude a % magnitude b))

-- In the range of an `int`.
abbrev pub IsInt : ℤ → Type 0
IsInt (pos n) = n < 2 ^ 31
IsInt (negsuc n) = n < 2 ^ 31

signed-IsInt : (w : ℕ) → w < 2 ^ 32 → IsInt (signed w)
signed-IsInt w h = elim (Bool-cases (ltb w (2 ^ 31))) [
  | inl low ↦ rw low (ltb→lt w (2 ^ 31) low)
  | inr high ↦ rw high (ground (arith, high))
]

-- A result that fits is left as it is, and every result fits then.
pub to_int-IsInt : (z : ℤ) → IsInt (to_int z) × (IsInt z → to_int z ≡ z)
unfolding to_int
to_int-IsInt (pos n) = (signed-IsInt (n % 2 ^ 32) (omega arith), λ l. ground (arith, l))
to_int-IsInt (negsuc n) =
    (signed-IsInt (2 ^ 32 - 1 - n % 2 ^ 32) (omega arith), λ l. ground (arith, l))

with_sign_lem :
    (s : Bool) (n : ℕ)
    → (magnitude (with_sign s n) ≡ n)
      × ((with_sign s n ≡ pos 0) ⊎ (is_negative (with_sign s n) ≡ s))
with_sign_lem false n = (refl, inr refl)
with_sign_lem true zero = (refl, inl refl)
with_sign_lem true (suc n) = (omega arith, inr refl)

-- The remainder is smaller than the divisor, has the sign of the dividend or is 0, and is what a whole
-- number of divisors leaves of the dividend; there is one unless the divisor is 0, or it is -1 and the
-- dividend the least number.
remainder_lem :
    (a b r : ℤ)
    → remainder a b ≡ some r
    → (magnitude r < magnitude b)
      × ((r ≡ pos 0) ⊎ (is_negative r ≡ is_negative a))
      × (magnitude a ≡ magnitude a / magnitude b * magnitude b + magnitude r)
unfolding remainder
remainder_lem a b r e =
    let (traps, same) =
      if-none (magnitude b == 0 || (eqb a (negsuc (2 ^ 31 - 1)) && eqb b (negsuc 0))) e in
    let left = with_sign_lem (is_negative a) (magnitude a % magnitude b) in
    let some_divisor : 0 < magnitude b = ground (arith, traps) in
    subst
      (λ z.
        (magnitude z < magnitude b)
        × ((z ≡ pos 0) ⊎ (is_negative z ≡ is_negative a))
        × (magnitude a ≡ magnitude a / magnitude b * magnitude b + magnitude z))
      (some_eq same)
      (
        rw (left.0) (mod-lt (magnitude a) some_divisor),
        left.1,
        rw (left.0) (sym (div-add-mod' (magnitude a) (magnitude b))),
      )
