-- ===== src/Proc/Command.antt =====
-- The column COMMAND of Assignment_2/myps.c and mytop.c, from the bytes of /proc/pid/cmdline.
use mathlib.Core.List.{append-nil, append_assoc}
use ssu_operating_system.Base.{
  length-append, ◌<◌, ◌≡◌, refl, ◌∙◌, ap, sym, Bool, true, false, not, ◌&&◌, List, [], ◌∷◌, ◌++◌,
  ◌==◌, if◌then◌else◌, arith, length, All,
}
use ssu_operating_system.Base.Text.{Text, codes}

-- The loop of `fread`; `after_nul` is that the byte before was 0, which a byte other than 0 makes a
-- blank. At the end of the file the byte stays 0.
unfoldable pub read_command : Bool → Text → Text
read_command after_nul [] = []
read_command false (c ∷ cs) =
    let rest = read_command false cs in
    let rest' = read_command true cs in if c == 0 then rest' else c ∷ rest
read_command true (c ∷ cs) =
    let rest = read_command false cs in if c == 0 then [] else b' ' ∷ (c ∷ rest)

-- `proc.command`, where the file is empty with the name of the command.
unfoldable pub command : Text → Text → Text
unfolding read_command
command cmdline cmd =
    let text = read_command false cmdline in
    if length text == 0 then codes "[" ++ (cmd ++ codes "]") else text

-- An argument: not empty and without a 0.
abbrev pub no_nul : Text → Bool
no_nul [] = true
no_nul (c ∷ cs) = not (c == 0) && no_nul cs

abbrev pub IsArgument : Text → Type 0
IsArgument a = (0 < length a) × (no_nul a ≡ true)

-- The arguments as the kernel has them, each with a 0 behind it.
abbrev pub cmdline_of : List Text → Text
cmdline_of [] = []
cmdline_of (a ∷ args) = a ++ (0 ∷ cmdline_of args)

-- A blank before each.
abbrev spaced : List Text → Text
spaced [] = []
spaced (a ∷ args) = b' ' ∷ (a ++ spaced args)

-- A blank between two.
abbrev pub joined : List Text → Text
joined [] = []
joined (a ∷ args) = a ++ spaced args

read_argument :
    (a rest : Text)
    → no_nul a ≡ true
    → read_command false (a ++ (0 ∷ rest)) ≡ a ++ read_command true rest
unfolding read_command
read_argument [] rest h = refl
read_argument (c ∷ a) rest h = ground (arith, read_argument a rest)

-- Up to the end of the file, or to an empty argument.
read_spaced :
    (args : List Text) (tail : Text)
    → All IsArgument args
    → read_command true tail ≡ []
    → read_command true (cmdline_of args ++ tail) ≡ spaced args
unfolding read_command
read_spaced [] tail h e = e
read_spaced ([] ∷ args) tail ((l, n), hs) e = absurd (omega arith)
read_spaced ((c ∷ a) ∷ args) tail ((l, n), hs) e =
    rw (append_assoc a (0 ∷ cmdline_of args) tail)
      (ground (arith, n, read_argument a (cmdline_of args ++ tail), read_spaced args tail hs e))

not_empty : (t : Text) → 0 < length t → (length t == 0) ≡ false
not_empty t l = ground (arith, l)

command-tail :
    (a : Text) (args : List Text) (cmd tail : Text)
    → no_nul a ≡ true
    → All IsArgument args
    → 0 < length (joined (a ∷ args))
    → read_command true tail ≡ []
    → command (cmdline_of (a ∷ args) ++ tail) cmd ≡ joined (a ∷ args)
unfolding command
command-tail a args cmd tail n hs l e =
    rw
      (
        append_assoc a (0 ∷ cmdline_of args) tail,
        read_argument a (cmdline_of args ++ tail) n,
        read_spaced args tail hs e,
        not_empty (a ++ spaced args) l,
      )
      refl

-- COMMAND is the arguments with a blank between two, where at most the first is empty and something
-- is left to show; an empty argument behind these hides those that follow it; and where there are no
-- arguments, or only one and it is empty, it is the name of the command in brackets.
pub command-joined :
    (a : Text) (args : List Text) (cmd behind : Text)
    → no_nul a ≡ true
    → All IsArgument args
    → 0 < length (joined (a ∷ args))
    → (command (cmdline_of (a ∷ args)) cmd ≡ joined (a ∷ args))
      × (command (cmdline_of (a ∷ args) ++ (0 ∷ behind)) cmd ≡ joined (a ∷ args))
      × (command [] cmd ≡ codes "[" ++ (cmd ++ codes "]"))
      × (command (0 ∷ []) cmd ≡ codes "[" ++ (cmd ++ codes "]"))
unfolding command read_command
command-joined a args cmd behind n hs l = (
  ap (λ t. command t cmd) (sym (append-nil (cmdline_of (a ∷ args))))
      ∙ command-tail a args cmd [] n hs l refl,
  command-tail a args cmd (0 ∷ behind) n hs l refl,
  refl,
  refl,
)

-- The arguments with their blanks are not empty if the first one is not.
pub joined-some : (a : Text) (args : List Text) → 0 < length a → 0 < length (joined (a ∷ args))
joined-some a args l = omega (arith, length-append a (spaced args), l)
