-- ===== src/Top/Summary/Ticks.antt =====
-- The first row of /proc/stat as the kernel prints it, and as Assignment_2/mytop.c reads it.
use mathlib.Core.List.{append_assoc}
use ssu_operating_system.Base.{
  ℕ, zero, suc, ◌+◌, ◌-◌, ◌*◌, ◌^◌, ◌<◌, ◌≡◌, refl, sym, ◌∙◌, ap, Bool, true, false, not, ◌&&◌,
  some, List, [], ◌∷◌, ◌++◌, ◌>>=◌, ◌==◌, length, All, arith,
}
use ssu_operating_system.Base.Text.{
  Text, codes, is_digit, skip, decimal, value, all_digits, decimal-all_digits, decimal-length,
  value-decimal,
}
use ssu_operating_system.Input.{fgets, number}
use ssu_operating_system.Proc.Host.{to_digit}
use ssu_operating_system.Top.Summary.{after_digits, read_ticks}

-- The numbers as the kernel prints them, a blank before each, and the file with them in its first row.
abbrev pub ticks_text : List ℕ → Text
ticks_text [] = []
ticks_text (t ∷ ts) = b' ' ∷ (decimal t ++ ticks_text ts)

abbrev pub stat_file : List ℕ → Text → Text
stat_file ts rest = codes "cpu " ++ (ticks_text ts ++ (b'\n' ∷ rest))

abbrev EndsNumber : Text → Type 0
EndsNumber [] = Unit
EndsNumber (c ∷ cs) = is_digit c ≡ false

number-append :
    (acc : ℕ) (d rest : Text)
    → all_digits d ≡ true
    → EndsNumber rest
    → (number acc (d ++ rest) ≡ value acc d) × (after_digits (d ++ rest) ≡ rest)
unfolding number after_digits value
number-append acc [] [] h e = (refl, refl)
number-append acc [] (c ∷ rest) h e = rw e (refl, refl)
number-append acc (c ∷ d) rest h e =
    ground (arith, h, number-append (acc * 10 + (c - b'0')) d rest (ground (arith, h)) e)

read_ticks-digits :
    (n : ℕ) (u d rest : Text)
    → skip u ≡ d ++ rest
    → all_digits d ≡ true
    → 0 < length d
    → EndsNumber rest
    → read_ticks (suc n) u ≡ value 0 d ∷ read_ticks n rest
unfolding read_ticks
read_ticks-digits n u [] rest s h l e = absurd (omega (arith, l))
read_ticks-digits n u (c ∷ d) rest s h l e =
    let digit : is_digit c ≡ true = ground (arith, h) in
    let (v, r) = number-append 0 (c ∷ d) rest h e in rw (s, read_ticks, digit, v, s, r) refl

-- A number that fits 64 bits has a digit at least.
some_digit : (t : ℕ) → t < 2 ^ 64 → 0 < length (decimal t)
some_digit t h = (decimal-length 19 t (omega (arith, h))).0

skip-digits : (d rest : Text) → all_digits d ≡ true → 0 < length d → skip (d ++ rest) ≡ d ++ rest
unfolding skip
skip-digits [] rest h l = absurd (omega (arith, l))
skip-digits (c ∷ d) rest h l = ground (arith, h)

skip_blank : (rest : Text) → skip (b' ' ∷ rest) ≡ skip rest
unfolding skip
skip_blank rest = refl

EndsNumber-ticks_text :
    (ts : List ℕ) (rest : Text) → EndsNumber rest → EndsNumber (ticks_text ts ++ rest)
EndsNumber-ticks_text [] rest e = e
EndsNumber-ticks_text (t ∷ ts) rest e = refl

-- A number at the front is read, with a blank before it or without.
read_ticks-decimal :
    (n t : ℕ) (u rest : Text)
    → skip u ≡ skip (decimal t ++ rest)
    → t < 2 ^ 64
    → EndsNumber rest
    → read_ticks (suc n) u ≡ t ∷ read_ticks n rest
read_ticks-decimal n t u rest s h e =
    read_ticks-digits n u (decimal t) rest
      (s ∙ skip-digits (decimal t) rest (decimal-all_digits t) (some_digit t h))
      (decimal-all_digits t) (some_digit t h) e
    ∙ ap (λ v. v ∷ read_ticks n rest) (value-decimal t)

read_ticks-ticks_text :
    (ts : List ℕ) (rest : Text)
    → All (λ t. t < 2 ^ 64) ts
    → EndsNumber rest
    → read_ticks (length ts) (ticks_text ts ++ rest) ≡ ts
unfolding read_ticks
read_ticks-ticks_text [] rest h e = refl
read_ticks-ticks_text (t ∷ ts) rest (l, h) e =
    ap (λ u. read_ticks (suc (length ts)) (b' ' ∷ u))
      (append_assoc (decimal t) (ticks_text ts) rest)
    ∙ read_ticks-decimal (length ts) t (b' ' ∷ (decimal t ++ (ticks_text ts ++ rest)))
        (ticks_text ts ++ rest) (skip_blank (decimal t ++ (ticks_text ts ++ rest))) l
        (EndsNumber-ticks_text ts rest e)
    ∙ ap (λ us. t ∷ us) (read_ticks-ticks_text ts rest h e)

no_newline : Text → Bool
no_newline [] = true
no_newline (c ∷ cs) = not (c == b'\n') && no_newline cs

no_newline-append :
    (s t : Text) → no_newline s ≡ true → no_newline t ≡ true → no_newline (s ++ t) ≡ true
unfolding no_newline
no_newline-append [] t h k = k
no_newline-append (c ∷ s) t h k = ground (arith, h, no_newline-append s t (ground (arith, h)) k)

no_newline-digits : (d : Text) → all_digits d ≡ true → no_newline d ≡ true
unfolding no_newline
no_newline-digits [] h = refl
no_newline-digits (c ∷ d) h = ground (arith, h, no_newline-digits d (ground (arith, h)))

no_newline-ticks_text : (ts : List ℕ) → no_newline (ticks_text ts) ≡ true
unfolding no_newline
no_newline-ticks_text [] = refl
no_newline-ticks_text (t ∷ ts) =
    no_newline-append (decimal t) (ticks_text ts)
      (no_newline-digits (decimal t) (decimal-all_digits t)) (no_newline-ticks_text ts)

fgets-line :
    (room : ℕ) (t rest : Text)
    → no_newline t ≡ true
    → length t < room
    → (fgets room (t ++ (b'\n' ∷ rest))).0 ≡ t ++ (b'\n' ∷ [])
unfolding fgets no_newline
fgets-line zero t rest h l = absurd (omega (arith, l))
fgets-line (suc room) [] rest h l = refl
fgets-line (suc room) (c ∷ t) rest h l =
    ground (arith, h, fgets-line room t rest (ground (arith, h)) (omega (arith, l)))

to_digit-digits :
    (d rest : Text) → all_digits d ≡ true → 0 < length d → to_digit (d ++ rest) ≡ some (d ++ rest)
unfolding to_digit
to_digit-digits [] rest h l = absurd (omega (arith, l))
to_digit-digits (c ∷ d) rest h l = ground (arith, h)

-- The first row is read up to its end, and its numbers from the first digit on.
first_row :
    (t : ℕ) (ts : List ℕ) (rest : Text)
    → t < 2 ^ 64
    → length (ticks_text (t ∷ ts)) < 1019
    → to_digit (fgets 1023 (stat_file (t ∷ ts) rest)).0
      ≡ some (decimal t ++ (ticks_text ts ++ (b'\n' ∷ [])))
unfolding to_digit no_newline
first_row t ts rest h l =
    ap to_digit (
      fgets-line 1023 (codes "cpu " ++ ticks_text (t ∷ ts)) rest (no_newline-ticks_text (t ∷ ts))
        (omega (arith, l)))
    ∙ ap to_digit (append_assoc (decimal t) (ticks_text ts) (b'\n' ∷ []))
    ∙ to_digit-digits (decimal t) (ticks_text ts ++ (b'\n' ∷ [])) (decimal-all_digits t)
        (some_digit t h)

ticks_text-append : (ts us : List ℕ) → ticks_text (ts ++ us) ≡ ticks_text ts ++ ticks_text us
ticks_text-append [] us = refl
ticks_text-append (t ∷ ts) us =
    ap (λ r. b' ' ∷ (decimal t ++ r)) (ticks_text-append ts us)
    ∙ ap (λ r. b' ' ∷ r) (sym (append_assoc (decimal t) (ticks_text ts) (ticks_text us)))

-- The first numbers of the row are read, whatever numbers follow.
pub row_ticks :
    (ts more : List ℕ) (rest : Text)
    → length ts ≡ 8
    → All (λ t. t < 2 ^ 64) ts
    → length (ticks_text (ts ++ more)) < 1019
    → (to_digit (fgets 1023 (stat_file (ts ++ more) rest)).0 >>= (λ ptr. some (read_ticks 8 ptr)))
      ≡ some ts
row_ticks [] more rest e h l = absurd (omega (arith, e))
row_ticks (t ∷ ts) more rest e (b, h) l =
    let seven : length ts ≡ 7 = omega (arith, e) in
    let behind : Text = ticks_text more ++ (b'\n' ∷ []) in
    let ends : EndsNumber behind = EndsNumber-ticks_text more (b'\n' ∷ []) refl in
    let split : ticks_text (ts ++ more) ++ (b'\n' ∷ []) ≡ ticks_text ts ++ behind =
      ap (λ r. r ++ (b'\n' ∷ [])) (ticks_text-append ts more)
      ∙ append_assoc (ticks_text ts) (ticks_text more) (b'\n' ∷ []) in
    ap (λ o. o >>= (λ ptr. some (read_ticks 8 ptr))) (first_row t (ts ++ more) rest b l)
    ∙ ap (λ r. some (read_ticks 8 (decimal t ++ r))) split
    ∙ ap some (
        read_ticks-decimal 7 t (decimal t ++ (ticks_text ts ++ behind)) (ticks_text ts ++ behind)
          refl b (EndsNumber-ticks_text ts behind ends)
        ∙ ap (λ us. t ∷ us)
            (ap (λ n. read_ticks n (ticks_text ts ++ behind)) (sym seven)
              ∙ read_ticks-ticks_text ts behind h ends))
