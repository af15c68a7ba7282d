-- ===== src/Base/Text.antt =====
-- Texts as lists of bytes, without the final NUL: what the programs use of printf, string.h and
-- ctype.h.
use Prim.Native.Nat.{ℕ, zero, suc, ◌+◌, ◌-◌, ◌*◌, ◌/◌, ◌%◌, ◌^◌, ◌≤◌, ◌<◌}
use Prim.Native.Char.{code}
use Prim.Native.String.{String}
use mathlib.Core.Path.{◌≡◌, refl, subst}
use mathlib.Core.Logic.{◌↔◌}
use mathlib.Core.Bool.{Bool, true, false, ◌&&◌, ◌||◌}
use mathlib.Core.List.{List, [], ◌∷◌, ◌++◌}
use native.Mathlib.Nat.{pow-suc}
use native.Mathlib.Omega.{arith}
use ssu_operating_system.Base.Tests.{ltb, leb, ◌==◌, if◌then◌else◌}
use ssu_operating_system.Base.Lists.{replicate, length, length-append}

abbrev pub Text : Type 0
Text = List ℕ

abbrev pub codes : String → Text
codes String.[] = []
codes (String.◌∷◌ c s) = code c ∷ codes s

-- `strcmp(a, b) == 0`.
abbrev pub text_eq : Text → Text → Bool
text_eq [] [] = true
text_eq (a ∷ as') (b ∷ bs) = (a == b) && text_eq as' bs
text_eq _ _ = false

-- `strncmp(a, b, strlen(b)) == 0`.
abbrev pub starts_with : Text → Text → Bool
starts_with as' [] = true
starts_with (a ∷ as') (b ∷ bs) = (a == b) && starts_with as' bs
starts_with [] (b ∷ bs) = false

abbrev pub is_digit : ℕ → Bool
is_digit c = leb b'0' c && leb c b'9'

abbrev pub spaces : ℕ → Text
spaces n = replicate n b' '

-- `isspace`.
abbrev pub is_space : ℕ → Bool
is_space c = (c == 32) || (ltb 8 c && ltb c 14)

-- `%s` of scanf skips white space and takes what is before the next.
unfoldable pub skip : Text → Text
skip [] = []
skip (c ∷ cs) = if is_space c then skip cs else c ∷ cs

unfoldable pub word : Text → Text
word [] = []
word (c ∷ cs) = if is_space c then [] else c ∷ word cs

-- What is left behind that.
unfoldable pub after_word : Text → Text
after_word [] = []
after_word (c ∷ cs) = if is_space c then c ∷ cs else after_word cs

-- `%lu`, with one round for each digit at most.
decimal_from : ℕ → ℕ → Text
decimal_from zero n = []
decimal_from (suc fuel) n =
    let rest = decimal_from fuel (n / 10) in
    if ltb n 10 then (b'0' + n) ∷ [] else rest ++ ((b'0' + n % 10) ∷ [])

unfoldable pub decimal : ℕ → Text
unfolding decimal_from
decimal n = decimal_from (n + 1) n

-- The value of a text of digits, as `atoi` and `%lu` read it.
unfoldable pub value : ℕ → Text → ℕ
value acc [] = acc
value acc (c ∷ cs) = value (acc * 10 + (c - b'0')) cs

abbrev pub all_digits : Text → Bool
all_digits [] = true
all_digits (c ∷ cs) = is_digit c && all_digits cs

value-append : (acc : ℕ) (xs ys : Text) → value acc (xs ++ ys) ≡ value (value acc xs) ys
unfolding value
value-append acc [] ys = refl
value-append acc (x ∷ xs) ys = value-append (acc * 10 + (x - b'0')) xs ys

decimal_from-value : (fuel n : ℕ) → n < fuel → value 0 (decimal_from fuel n) ≡ n
unfolding decimal_from value
decimal_from-value zero n h = elim h [ ]
decimal_from-value (suc fuel) n h = ground (
  arith,
  decimal_from-value fuel (n / 10),
  value-append 0 (decimal_from fuel (n / 10)) ((b'0' + n % 10) ∷ []),
)

-- Reading what was printed gives the number back.
pub value-decimal : (n : ℕ) → value 0 (decimal n) ≡ n
unfolding decimal
value-decimal n = decimal_from-value (n + 1) n (omega arith)

all_digits-append :
    (xs ys : Text) → all_digits xs ≡ true → all_digits ys ≡ true → all_digits (xs ++ ys) ≡ true
all_digits-append [] ys h k = k
all_digits-append (x ∷ xs) ys h k = ground (arith, all_digits-append xs ys)

decimal_from-all_digits : (fuel n : ℕ) → all_digits (decimal_from fuel n) ≡ true
unfolding decimal_from
decimal_from-all_digits zero n = refl
decimal_from-all_digits (suc fuel) n = ground (
  arith,
  decimal_from-all_digits fuel (n / 10),
  all_digits-append (decimal_from fuel (n / 10)) ((b'0' + n % 10) ∷ []),
)

pub decimal-all_digits : (n : ℕ) → all_digits (decimal n) ≡ true
unfolding decimal
decimal-all_digits n = decimal_from-all_digits (n + 1) n

decimal_from-length : (fuel k n : ℕ) → n < 10 ^ suc k → length (decimal_from fuel n) ≤ suc k
unfolding decimal_from
decimal_from-length zero k n h = omega arith
decimal_from-length (suc fuel) zero n h = ground arith
decimal_from-length (suc fuel) (suc k) n h =
    let smaller : n / 10 < 10 ^ suc k = omega (arith, rw (pow-suc 10 (suc k)) at h) in
    ground (
      arith,
      decimal_from-length fuel k (n / 10) smaller,
      length-append (decimal_from fuel (n / 10)) ((b'0' + n % 10) ∷ []),
    )

-- A number below a power of 10 has no more digits than its exponent says, and one at least.
pub decimal-length :
    (k n : ℕ) → n < 10 ^ suc k → (0 < length (decimal n)) × (length (decimal n) ≤ suc k)
unfolding decimal decimal_from
decimal-length k n h = (
  ground (arith, length-append (decimal_from n (n / 10)) ((b'0' + n % 10) ∷ [])),
  decimal_from-length (n + 1) k n h,
)

text_eq→eq : (a b : Text) → text_eq a b ≡ true → a ≡ b
text_eq→eq [] [] h = refl
text_eq→eq [] (b ∷ bs) h = cc
text_eq→eq (a ∷ as') [] h = cc
text_eq→eq (a ∷ as') (b ∷ bs) h = ground (arith, text_eq→eq as' bs)

text_eq_refl : (a : Text) → text_eq a a ≡ true
text_eq_refl [] = refl
text_eq_refl (a ∷ as') = ground (arith, text_eq_refl as')

pub text_eq_iff : (a b : Text) → (text_eq a b ≡ true) ↔ (a ≡ b)
text_eq_iff a b = (text_eq→eq a b, λ e. subst (λ x. text_eq a x ≡ true) e (text_eq_refl a))

-- `%3.1Lf` of a number of tenths.
unfoldable pub tenths : ℕ → Text
tenths n = decimal (n / 10) ++ (b'.' ∷ decimal (n % 10))
