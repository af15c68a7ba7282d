-- ===== src/Lscpu/Terminal.antt =====
-- PrintTerminal of Assignment_2/mylscpu.c: a value in the columns behind the first 33.
use native.Mathlib.Nat.{mod_self, suc-mul, mod-eq_of_lt, mul-add-mod_self_right}
use ssu_operating_system.Base.{
  ℕ, zero, suc, ◌+◌, ◌-◌, ◌*◌, ◌%◌, ◌<◌, ◌≤◌, ◌≡◌, refl, false, Option, none, some, [], ◌∷◌, ◌++◌,
  if◌then◌else◌, length, arith, ◌==◌, subst, ◌∙◌, All, ◌>>=◌, take, drop,
}
use ssu_operating_system.Base.Text.{Text, spaces}

-- The size of `termWidth - 33`: a remainder in C is 0 for a divisor and for its negation alike.
abbrev columns : ℕ → ℕ
columns term_width = term_width - 33 + (33 - term_width)

-- What is printed before the byte at `i`, with so many columns; `none` is a division by 0.
wrap : ℕ → ℕ → Option Text
wrap d i =
    if i == 0
    then some []
    else (if d == 0 then none else (if i % d == 0 then some (spaces 33) else some []))

-- The loop from `i` on: `none` as well where it goes on past the end of the text.
print_from : ℕ → ℕ → Text → Option Text
print_from d i [] = none
print_from d i (c ∷ p) =
    let rest = print_from d (i + 1) p in
    if c == b'\n'
    then some (b'\n' ∷ [])
    else (do margin ← wrap d i; printed ← rest; some (margin ++ (c ∷ printed)))

pub print_terminal : ℕ → Text → Option Text
print_terminal term_width p = print_from (columns term_width) 0 p

-- The rows behind the first: a margin of 33 blanks and the next `d` bytes each, in as many rounds as
-- there are bytes at most.
abbrev rows_from : ℕ → ℕ → Text → Text
rows_from d zero p = []
rows_from d (suc fuel) [] = []
rows_from d (suc fuel) (c ∷ p) = spaces 33 ++ (take d (c ∷ p) ++ rows_from d fuel (drop d (c ∷ p)))

-- A text in rows of `d` bytes.
abbrev pub in_rows : ℕ → Text → Text
in_rows d p = take d p ++ rows_from d (length p) (drop d p)

-- There is no newline.
abbrev OneLine : Text → Type 0
OneLine p = All (λ c. (c == b'\n') ≡ false) p

wrap-inside : (d m j : ℕ) → 0 < j → j < suc d → wrap (suc d) (m * suc d + j) ≡ some []
unfolding wrap
wrap-inside d m j h k =
    let inside : (m * suc d + j) % suc d ≡ j =
      mul-add-mod_self_right m (suc d) j ∙ mod-eq_of_lt k in
    ground (arith, inside)

wrap-start : (d : ℕ) → wrap d 0 ≡ some []
unfolding wrap
wrap-start d = refl

wrap-end : (d m : ℕ) → wrap (suc d) (m * suc d + suc d) ≡ some (spaces 33)
unfolding wrap
wrap-end d m =
    let here : (m * suc d + suc d) % suc d ≡ 0 =
      mul-add-mod_self_right m (suc d) (suc d) ∙ mod_self (suc d) in
    ground (arith, here)

abbrev Prints : ℕ → ℕ → Text → Text → Text → Type 0
Prints d i p rest out = print_from d i (p ++ (b'\n' ∷ rest)) ≡ some (out ++ (b'\n' ∷ []))

print-cons :
    (d i c : ℕ) (p rest margin out : Text)
    → (c == b'\n') ≡ false
    → wrap d i ≡ some margin
    → Prints d (i + 1) p rest out
    → print_from d i ((c ∷ p) ++ (b'\n' ∷ rest)) ≡ some (margin ++ (c ∷ (out ++ (b'\n' ∷ []))))
unfolding print_from
print-cons d i c p rest margin out h w e = rw (h, w, e) refl

rows-end : (d fuel : ℕ) → rows_from d fuel [] ≡ []
rows-end d zero = refl
rows-end d (suc fuel) = refl

-- With room for so many bytes more in the row of `i`, the m-th.
print_from-rows :
    (d m room i fuel : ℕ) (p rest : Text)
    → OneLine p
    → i + room ≡ m * suc d + suc d
    → room ≤ d
    → length p ≤ fuel
    → Prints (suc d) i p rest (take room p ++ rows_from (suc d) fuel (drop room p))
unfolding print_from
print_from-rows d m zero i fuel [] rest l e k f = rw (rows-end (suc d) fuel) refl
print_from-rows d m (suc room) i fuel [] rest l e k f = rw (rows-end (suc d) fuel) refl
print_from-rows d m zero i zero (c ∷ p) rest l e k f = absurd (omega (arith, f))
print_from-rows d m zero i (suc fuel) (c ∷ p) rest l e k f =
    print-cons (suc d) i c p rest (spaces 33) _ l.0
      (subst (λ x. wrap (suc d) x ≡ some (spaces 33)) (omega (arith, e)) (wrap-end d m))
      (print_from-rows d (suc m) d (i + 1) fuel p rest l.1 (omega (arith, e, suc-mul m (suc d)))
        (omega arith) (omega (arith, f)))
print_from-rows d m (suc room) i fuel (c ∷ p) rest l e k f =
    print-cons (suc d) i c p rest [] _ l.0
      (subst (λ x. wrap (suc d) x ≡ some []) (omega (arith, e))
        (wrap-inside d m (d - room) (omega arith) (omega arith)))
      (print_from-rows d m room (i + 1) fuel p rest l.1 (omega (arith, e)) (omega arith)
        (omega (arith, f)))

print_from-in_rows :
    (d : ℕ) (p rest : Text) → OneLine p → Prints (suc d) 0 p rest (in_rows (suc d) p)
unfolding print_from
print_from-in_rows d [] rest l = refl
print_from-in_rows d (c ∷ p) rest l =
    print-cons (suc d) 0 c p rest [] _ l.0 (wrap-start (suc d)) (
      print_from-rows d 0 d 1 (suc (length p)) p rest l.1 (omega arith) (omega arith) (omega arith))

minus-suc : (w d : ℕ) → w ≡ d + 34 → w - 33 ≡ suc d
minus-suc w d e = omega (arith, e)

columns-suc : (w d : ℕ) → w ≡ d + 34 → columns w ≡ suc d
columns-suc w d e = omega (arith, e)

-- PrintTerminal prints a text up to its newline in rows of as many bytes as there are columns
-- behind the first 33, with a margin of 33 blanks before each row but the first.
pub print_terminal-rows :
    (term_width : ℕ) (p rest : Text)
    → OneLine p
    → 33 < term_width
    → print_terminal term_width (p ++ (b'\n' ∷ rest))
      ≡ some (in_rows (term_width - 33) p ++ (b'\n' ∷ []))
unfolding print_terminal
print_terminal-rows term_width p rest l h =
    let d = term_width - 34 in
    rw (columns-suc term_width d (omega arith), minus-suc term_width d (omega arith))
      (print_from-in_rows d p rest l)

-- On a terminal of 33 columns PrintTerminal divides by 0 at the second byte.
print_terminal-narrow :
    (a b : ℕ) (p rest : Text)
    → OneLine (a ∷ b ∷ p)
    → print_terminal 33 (a ∷ b ∷ p ++ (b'\n' ∷ rest)) ≡ none
unfolding print_terminal print_from wrap
print_terminal-narrow a b p rest l = rw (l.0, l.1.0) refl
