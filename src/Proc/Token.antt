-- ===== src/Proc/Token.antt =====
-- The tokens of /proc/pid/stat as Assignment_2/myps.c and mytop.c read them. `none` is a token too long
-- for its row of `statToken`, and a number that does not fit an `int`.
use mathlib.Core.List.{append_assoc}
use ssu_operating_system.Base.{
  ℕ, zero, suc, ◌+◌, ◌-◌, ◌*◌, ◌^◌, ◌≤◌, ◌<◌, ◌≡◌, refl, ◌∙◌, Bool, true, not, ◌&&◌, Option, none,
  some, List, [], ◌∷◌, ◌++◌, ◌>>=◌, ltb, leb, ◌==◌, if◌then◌else◌, arith, length, drop, get_or, All,
}
use ssu_operating_system.Base.Int.{ℤ, pos, negsuc}
use ssu_operating_system.Base.Text.{
  Text, codes, is_space, skip, word, after_word, starts_with, decimal, all_digits, value,
  value-decimal, decimal-all_digits,
}
use ssu_operating_system.Input.{number}

-- `fscanf(statFp, "%s", statToken[i])`, so many times, into rows of 32 bytes; at the end of the file
-- nothing is stored, and the row stays empty.
unfoldable pub tokens : ℕ → Text → Option (List Text)
tokens zero file = some []
tokens (suc n) file =
    let token = word (skip file) in
    let rest = tokens n (after_word (skip file)) in
    if ltb (length token) 32 then (do ts ← rest; some (token ∷ ts)) else none

abbrev pub token_at : List Text → ℕ → Text
token_at ts i = get_or ts i []

-- `atoi`, of a token.
unfoldable pub atoi : Text → Option ℤ
atoi [] = some (pos 0)
atoi (c ∷ cs) =
    if c == b'-'
    then (let n = number 0 cs in
        if n == 0 then some (pos 0) else if leb n (2 ^ 31) then some (negsuc (n - 1)) else none)
    else (let n = number 0 (if c == b'+' then cs else c ∷ cs) in
        if ltb n (2 ^ 31) then some (pos n) else none)

-- `(unsigned long)` of an `int`.
unfoldable pub to_ulong : ℤ → ℕ
to_ulong (pos n) = n
to_ulong (negsuc n) = 2 ^ 64 - 1 - n

-- `sscanf(token, "(%s", cmd)` and `cmd[strlen(cmd) - 1] = '\0'`, which is in front of the array where
-- `cmd` is empty.
unfoldable pub but_last : Text → Option Text
but_last [] = none
but_last (c ∷ []) = some []
but_last (c ∷ d ∷ cs) = do rest ← but_last (d ∷ cs); some (c ∷ rest)

unfoldable pub command_name : Text → Option Text
unfolding but_last
command_name token =
    if starts_with token (codes "(") then but_last (word (skip (drop 1 token))) else none

-- A token that `%s` reads whole, and its row holds.
abbrev pub no_space : Text → Bool
no_space [] = true
no_space (c ∷ cs) = not (is_space c) && no_space cs

abbrev pub IsToken : Text → Type 0
IsToken t = (0 < length t) × (no_space t ≡ true) × (length t < 32)

-- Tokens as the kernel prints them, each with a blank behind it.
abbrev pub line_of : List Text → Text
line_of [] = []
line_of (t ∷ ts) = t ++ (b' ' ∷ line_of ts)

word-append :
    (t rest : Text)
    → no_space t ≡ true
    → (word (t ++ (b' ' ∷ rest)) ≡ t) × (after_word (t ++ (b' ' ∷ rest)) ≡ b' ' ∷ rest)
unfolding word after_word
word-append [] rest h = (refl, refl)
word-append (c ∷ t) rest h = ground (arith, word-append t rest)

skip-token : (t rest : Text) → IsToken t → skip (t ++ rest) ≡ t ++ rest
unfolding skip
skip-token [] rest (l, h, k) = absurd (omega arith)
skip-token (c ∷ t) rest (l, h, k) = ground (arith, h)

skip_blank : (rest : Text) → skip (b' ' ∷ rest) ≡ skip rest
unfolding skip
skip_blank rest = refl

-- Behind the blank of the token before, or at the start.
tokens_from :
    (ts : List Text) (rest file : Text)
    → All IsToken ts
    → skip file ≡ skip (line_of ts ++ rest)
    → tokens (length ts) file ≡ some ts
unfolding tokens
tokens_from [] rest file h e = refl
tokens_from (t ∷ ts) rest file (h, hs) e =
    let behind : Text = b' ' ∷ (line_of ts ++ rest) in
    let here : skip file ≡ t ++ behind =
      e ∙ rw (append_assoc t (b' ' ∷ line_of ts) rest) (skip-token t behind h) in
    let (first, left) = word-append t (line_of ts ++ rest) h.1 in
    let fits : ltb (length t) 32 ≡ true = ground (arith, h) in
    rw (here, first, left, fits, tokens_from ts rest behind hs (skip_blank (line_of ts ++ rest)))
      refl

-- The tokens that a line was printed from are read, whatever is behind them.
pub tokens-line_of :
    (ts : List Text) (rest : Text)
    → All IsToken ts
    → tokens (length ts) (line_of ts ++ rest) ≡ some ts
tokens-line_of ts rest h = tokens_from ts rest (line_of ts ++ rest) h refl

but_last-append : (t : Text) (c : ℕ) → but_last (t ++ (c ∷ [])) ≡ some t
unfolding but_last
but_last-append [] c = refl
but_last-append (a ∷ []) c = refl
but_last-append (a ∷ b ∷ t) c = rw (but_last-append (b ∷ t) c) refl

word_whole : (t : Text) → no_space t ≡ true → word t ≡ t
unfolding word
word_whole [] h = refl
word_whole (c ∷ t) h = ground (arith, word_whole t)

pub no_space-append :
    (s t : Text) → no_space s ≡ true → no_space t ≡ true → no_space (s ++ t) ≡ true
no_space-append [] t h k = k
no_space-append (c ∷ s) t h k = ground (arith, no_space-append s t)

skip_none : (t : Text) → no_space t ≡ true → skip t ≡ t
unfolding skip
skip_none [] h = refl
skip_none (c ∷ t) h = ground arith

-- The name in parentheses is found, if it has no white space.
pub command_name_lem :
    (name : Text) → no_space name ≡ true → command_name (b'(' ∷ (name ++ codes ")")) ≡ some name
unfolding command_name
command_name_lem name h =
    let whole : no_space (name ++ codes ")") ≡ true = no_space-append name (codes ")") h refl in
    rw (skip_none (name ++ codes ")") whole, word_whole (name ++ codes ")") whole)
      (but_last-append name b')')

number_whole : (acc : ℕ) (t : Text) → all_digits t ≡ true → number acc t ≡ value acc t
unfolding number value
number_whole acc [] h = refl
number_whole acc (c ∷ t) h = ground (arith, number_whole (acc * 10 + (c - b'0')) t)

number-decimal : (n : ℕ) → number 0 (decimal n) ≡ n
number-decimal n = number_whole 0 (decimal n) (decimal-all_digits n) ∙ value-decimal n

unsigned :
    (t : Text)
    → all_digits t ≡ true
    → atoi t ≡ (if ltb (number 0 t) (2 ^ 31) then some (pos (number 0 t)) else none)
unfolding atoi number
unsigned [] d = refl
unsigned (c ∷ t) d = ground (arith, d)

negative : (t : Text) (n : ℕ) → number 0 t ≡ n + 1 → n < 2 ^ 31 → atoi (b'-' ∷ t) ≡ some (negsuc n)
unfolding atoi
negative t n e l = rw e (ground (arith, l))

-- A number printed in decimal is read back where it fits an int, and else C does not say what is read.
pub atoi-decimal :
    (n : ℕ)
    → (n < 2 ^ 31 → atoi (decimal n) ≡ some (pos n))
      × (n < 2 ^ 31 → atoi (b'-' ∷ decimal (n + 1)) ≡ some (negsuc n))
      × (2 ^ 31 ≤ n → atoi (decimal n) ≡ none)
atoi-decimal n = (
  λ l. rw (unsigned (decimal n) (decimal-all_digits n), number-decimal n) (ground (arith, l)),
  negative (decimal (n + 1)) n (number-decimal (n + 1)),
  λ l. rw (unsigned (decimal n) (decimal-all_digits n), number-decimal n) (ground (arith, l)),
)
