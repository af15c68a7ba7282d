-- ===== src/Calculator/Answers.antt =====
-- What the calculator of Assignment_3/syscall_operation.c prints, by what `put_user` does.
use ssu_operating_system.Base.{
  map, ◌≡◌, refl, Bool, true, false, Option, none, some, List, [], ◌∷◌, ◌>>=◌, inl, inr,
  Option-cases, ap,
}
use ssu_operating_system.Base.Int.{ℤ, pos}
use ssu_operating_system.Calculator.Word.{add, subtract, multiply, IsInt, to_int-IsInt}
use ssu_operating_system.Calculator.{
  failed, Op, plus, minus, times, val, Typed, entry, malformed, Shown, wrong_input, wrong_op,
  result, op_of, sys_basic, calculate,
}

-- The answer to a line on its own, and to each of some lines.
unfoldable pub answer : Typed → Option Shown
answer malformed = some wrong_input
answer (entry a c b) = elim (op_of c) [
  | none ↦ some wrong_op
  | some op ↦ do v ← val op a b; some (result a c b v)
]

unfoldable pub answers : List Typed → Option (List Shown)
answers [] = some []
answers (line ∷ lines) = do shown ← answer line; rest ← answers lines; some (shown ∷ rest)

-- What is printed with another number for the result.
abbrev pub with_result : ℤ → Shown → Shown
with_result w wrong_input = wrong_input
with_result w wrong_op = wrong_op
with_result w (result a c b v) = result a c b w

shown_first :
    (w : ℤ) (x : Shown) (rest : Option (List Shown))
    → ((rest >>= (λ shown. some (map (with_result w) shown)))
        >>= (λ shown. some (with_result w x ∷ shown)))
      ≡ ((rest >>= (λ shown. some (x ∷ shown))) >>= (λ shown. some (map (with_result w) shown)))
shown_first w x none = refl
shown_first w x (some shown) = refl

module _ (Mem : Type 0) (put_user : ℤ → Mem → Bool × Mem) (load : Mem → Option ℤ) where
  -- Where `put_user` stores what it is given and `*result` reads what is stored, the calculator gives
  -- each line its own answer, whatever came before and was in the memory.
  pub calculate-answers :
      ((v : ℤ) (m : Mem) → ((put_user v m).0 ≡ true) × (load (put_user v m).1 ≡ some v))
      → (m : Mem) (lines : List Typed) → calculate Mem put_user load m lines ≡ answers lines
  unfolding calculate sys_basic answers answer
  calculate-answers stores m [] = refl
  calculate-answers stores m (malformed ∷ lines) = rw (calculate-answers stores m lines) refl
  calculate-answers stores m (entry a c b ∷ lines) = elim (Option-cases (op_of c)) [
    | inl unknown ↦ rw (unknown, calculate, answer, calculate-answers stores m lines) refl
    | inr (op, known) ↦ elim (Option-cases (val op a b)) [
      | inl trap ↦ rw (known, calculate, answer, sys_basic, trap) refl
      | inr (v, value) ↦
          let (stored, read) = stores v m in
          rw
            (
              known,
              calculate,
              answer,
              sys_basic,
              value,
              read,
              calculate-answers stores (put_user v m).1 lines,
            )
            refl
    ]
  ]

  refused :
      ((v : ℤ) (m : Mem) → put_user v m ≡ (false, m))
      → (m : Mem) (op : Op) (a b : ℤ)
      → sys_basic Mem put_user load op a b m ≡ (val op a b >>= (λ v. some (pos 0, failed, m)))
  unfolding sys_basic
  refused fails m op a b = elim (Option-cases (val op a b)) [
    | inl trap ↦ rw trap refl
    | inr (v, value) ↦ rw (value, fails v m) refl
  ]

  stale :
      ((v : ℤ) (m : Mem) → put_user v m ≡ (false, m))
      → (m : Mem) (w : ℤ) (lines : List Typed) → load m ≡ some w
      → calculate Mem put_user load m lines
        ≡ (answers lines >>= (λ shown. some (map (with_result w) shown)))
  unfolding calculate answers answer
  stale fails m w [] l = refl
  stale fails m w (malformed ∷ lines) l =
      rw (stale fails m w lines l) (shown_first w wrong_input (answers lines))
  stale fails m w (entry a c b ∷ lines) l = elim (Option-cases (op_of c)) [
    | inl unknown ↦
        rw (unknown, calculate, answer, stale fails m w lines l)
          (shown_first w wrong_op (answers lines))
    | inr (op, known) ↦ elim (Option-cases (val op a b)) [
      | inl trap ↦ rw (known, calculate, answer, refused fails m op a b, trap) refl
      | inr (v, value) ↦
          rw (known, calculate, answer, refused fails m op a b, value, l, stale fails m w lines l)
            (shown_first w (result a c b v) (answers lines))
    ]
  ]

  -- Where put_user fails, each call that the processor does not refuse returns 0 all the same, and
  -- the calculator prints what it should, but with the number that was in the memory at the start,
  -- which can be read, for every result.
  pub calculate-unnoticed :
      ((v : ℤ) (m : Mem) → put_user v m ≡ (false, m))
      → (m : Mem) (w : ℤ) (lines : List Typed) → load m ≡ some w
      → ((op : Op) (a b : ℤ)
          → sys_basic Mem put_user load op a b m ≡ (val op a b >>= (λ v. some (pos 0, failed, m))))
        × (calculate Mem put_user load m lines
            ≡ (answers lines >>= (λ shown. some (map (with_result w) shown))))
  calculate-unnoticed fails m w lines l =
      (λ op a b. refused fails m op a b, stale fails m w lines l)

-- The four operations give the number that they should, where it fits an `int`.
val-exact :
    (a b : ℤ)
    → (IsInt (add a b) → val plus a b ≡ some (add a b))
      × (IsInt (subtract a b) → val minus a b ≡ some (subtract a b))
      × (IsInt (multiply a b) → val times a b ≡ some (multiply a b))
unfolding val
val-exact a b = (
  λ h. ap some ((to_int-IsInt (add a b)).1 h),
  λ h. ap some ((to_int-IsInt (subtract a b)).1 h),
  λ h. ap some ((to_int-IsInt (multiply a b)).1 h),
)
