-- ===== src/Proc/Number.antt =====
-- The numbers of /proc/pid/stat as the kernel prints them, and as they are read.
use ssu_operating_system.Base.{
  ℕ, ◌+◌, ◌^◌, ◌≤◌, ◌<◌, ◌≡◌, refl, true, some, [], ◌∷◌, ◌++◌, arith, length, length-append,
}
use ssu_operating_system.Base.Int.{ℤ, pos, negsuc}
use ssu_operating_system.Base.Text.{
  Text, codes, all_digits, decimal, decimal-all_digits, decimal-length,
}
use ssu_operating_system.Proc.Token.{IsToken, no_space, no_space-append, atoi, atoi-decimal}

-- `%d`.
abbrev pub integer : ℤ → Text
integer (pos n) = decimal n
integer (negsuc n) = b'-' ∷ decimal (n + 1)

-- The number fits an `int`.
abbrev pub IsInt : ℤ → Type 0
IsInt (pos n) = n < 2 ^ 31
IsInt (negsuc n) = n < 2 ^ 31

digits-no_space : (t : Text) → all_digits t ≡ true → no_space t ≡ true
digits-no_space [] h = refl
digits-no_space (c ∷ t) h = ground (arith, digits-no_space t)

ten_digits : (n : ℕ) → n ≤ 2 ^ 31 → n < 10 ^ 10
ten_digits n h = omega arith

decimal-IsToken : (n : ℕ) → n ≤ 2 ^ 31 → IsToken (decimal n)
decimal-IsToken n h =
    let (some_digit, few) = decimal-length 9 n (ten_digits n h) in
    (some_digit, digits-no_space (decimal n) (decimal-all_digits n), omega (arith, few))

-- Such a number is one token, and is read back.
pub integer-IsToken : (z : ℤ) → IsInt z → IsToken (integer z)
integer-IsToken (pos n) h = decimal-IsToken n (omega arith)
integer-IsToken (negsuc n) h =
    let (some_digit, few) = decimal-length 9 (n + 1) (ten_digits (n + 1) (omega arith)) in
    (
      omega arith,
      digits-no_space (decimal (n + 1)) (decimal-all_digits (n + 1)),
      omega (arith, few),
    )

pub atoi-integer : (z : ℤ) → IsInt z → atoi (integer z) ≡ some z
atoi-integer (pos n) h = (atoi-decimal n).0 h
atoi-integer (negsuc n) h = (atoi-decimal n).1 h

-- The name in parentheses is one token, if it is short and has no white space.
pub name-IsToken :
    (name : Text) → no_space name ≡ true → length name < 30 → IsToken (b'(' ∷ (name ++ codes ")"))
name-IsToken name h l = (
  omega arith,
  no_space-append name (codes ")") h refl,
  omega (arith, length-append name (codes ")")),
)
