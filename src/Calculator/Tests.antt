-- ===== src/Calculator/Tests.antt =====
-- Concrete runs of the calculator of Assignment_3.
use ssu_operating_system.Base.{◌≡◌, refl, Bool, true, false, none, some, List, [], ◌∷◌, ◌>>=◌}
use ssu_operating_system.Base.Int.{ℤ, pos, negsuc}
use ssu_operating_system.Calculator.{
  Op, failed, sys_basic, Typed, entry, malformed, wrong_input, wrong_op, result, modulo, plus, val,
  calculate, op_of,
}
use ssu_operating_system.Calculator.Word.{to_int, add, remainder}
use ssu_operating_system.Calculator.Answers.{
  answers, answer, calculate-answers, calculate-unnoticed,
}

-- The greatest number and 1.
sum_wraps : val plus (pos 2_147_483_647) (pos 1) ≡ some (negsuc 2_147_483_647)
unfolding val to_int add
sum_wraps = refl

remainder_sign :
    (val modulo (negsuc 6) (pos 3) ≡ some (negsuc 0)) × (val modulo (pos 1) (pos 0) ≡ none)
unfolding val remainder
remainder_sign = (refl, refl)

-- A memory that is one number, and one that cannot be written.
abbrev store : ℤ → ℤ → Bool × ℤ
store v m = (true, v)

abbrev refuse : ℤ → ℤ → Bool × ℤ
refuse v m = (false, m)

abbrev typed : List Typed
typed =
    entry (pos 7) b'+' (pos 5)
    ∷ malformed
    ∷ entry (pos 7) b'/' (pos 5)
    ∷ entry (negsuc 6) b'%' (pos 3)
    ∷ []

answers_of :
    answers typed
    ≡ some (
        result (pos 7) b'+' (pos 5) (pos 12)
        ∷ wrong_input
        ∷ wrong_op
        ∷ result (negsuc 6) b'%' (pos 3) (negsuc 0)
        ∷ [])
unfolding answers answer val to_int add remainder op_of
answers_of = refl

calculate-answers_example : calculate ℤ store some (pos 99) typed ≡ answers typed
calculate-answers_example = calculate-answers ℤ store some (λ v m. (refl, refl)) (pos 99) typed

calculate-unnoticed_example :
    ((op : Op) (a b : ℤ)
      → sys_basic ℤ refuse some op a b (pos 99)
        ≡ (val op a b >>= (λ v. some (pos 0, failed, pos 99))))
    × (calculate ℤ refuse some (pos 99) typed
        ≡ some (
            result (pos 7) b'+' (pos 5) (pos 99)
            ∷ wrong_input
            ∷ wrong_op
            ∷ result (negsuc 6) b'%' (pos 3) (pos 99)
            ∷ []))
unfolding answers answer val to_int add remainder op_of
calculate-unnoticed_example =
    calculate-unnoticed ℤ refuse some (λ v m. refl) (pos 99) (pos 99) typed refl
