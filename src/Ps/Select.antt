-- ===== src/Ps/Select.antt =====
-- GetTTY and SearchProcess of Assignment_2/myps.c: which processes are listed. What the system
-- calls return is an argument, and `none` is `exit(1)`.
use ssu_operating_system.Base.{
  ◌<◌, ltb, length, ℕ, ◌≡◌, refl, Bool, true, false, ◌&&◌, ◌||◌, not, Option, none, some, List, [],
  ◌∷◌, ◌++◌, if◌then◌else◌, ◌==◌, ◌>>=◌, All, arith, Bool-cases, inl, inr, drop,
}
use mathlib.Core.List.{Sublistᴰ}
use ssu_operating_system.Base.Text.{Text, codes, text_eq, starts_with, all_digits, skip, word}
use ssu_operating_system.Ps.Options.{Options, letter, letters}

-- An entry of /dev; `stat` is its kind (a character device or not) and its device number.
pub record Device : Type 0 where
  pub name : Text
  pub stat : Option (Bool × ℕ)

-- `tty`, of 32 bytes, with a text and the 0 behind it.
abbrev copy_tty : Text → Option Text
copy_tty name = if ltb (length name) 32 then some name else none

-- The loop over /dev: the name of the first character device with that number.
find_tty : ℕ → List Device → Option Text
find_tty tty_nr [] = some []
find_tty tty_nr (d ∷ devices) =
    let rest = find_tty tty_nr devices in
    elim d.stat [
      | none ↦ none
      | some (is_char, rdev) ↦ if is_char && (rdev == tty_nr) then copy_tty d.name else rest
    ]

abbrev is_empty : Text → Bool
is_empty [] = true
is_empty (c ∷ cs) = false

-- `sscanf(link, "/dev/%s", tty)`, with `tty` empty before.
after_dev : Text → Option Text
unfolding word skip
after_dev link =
    if starts_with link (codes "/dev/") then copy_tty (word (skip (drop 5 link))) else some []

-- A link of 128 bytes or more has no 0 behind it in `symLinkName`. What `readlink` gives for `/proc/…/fd/0`, if it is there; the field tty_nr of `/proc/…/stat`, if
-- that can be opened; and the entries of /dev, if that can be opened.
get_tty : Option (Option Text) → Option ℕ → Option (List Device) → Option Text
unfolding find_tty after_dev
get_tty (some none) tty_nr devices = none
get_tty (some (some link)) tty_nr devices =
    if ltb (length link) 128
    then (if text_eq link (codes "/dev/null") then some (codes "?") else after_dev link)
    else none
get_tty none none devices = some []
get_tty none (some tty_nr) none = none
get_tty none (some tty_nr) (some devices) = do
  tty ← find_tty tty_nr devices
  some (if is_empty tty then codes "?" else tty)

-- An entry of /proc that `stat` reads (on an error the program ends); `tty` is what GetTTY finds for
-- it.
pub record Entry : Type 0 where
  pub is_dir : Bool
  pub name : Text
  pub uid : ℕ
  pub tty : Text

abbrev has_terminal : Text → Bool
has_terminal tty = not (is_empty tty || text_eq tty (codes "?"))

-- The tests of the loop in order, each with its `continue`.
is_shown : Options → ℕ → Text → Entry → Bool
is_shown o my_uid my_tty d =
    if not d.is_dir
    then false
    else if not (all_digits d.name)
    then false
    else if not o.a && not (d.uid == my_uid)
    then false
    else if not o.x && not (has_terminal d.tty)
    then false
    else if not o.a && (not o.u && not o.x)
    then text_eq d.tty my_tty
    else true

-- The entries for which AddProcessList is called.
pub search_process : Options → ℕ → Text → List Entry → List Entry
unfolding is_shown
search_process o my_uid my_tty [] = []
search_process o my_uid my_tty (d ∷ entries) =
    let rest = search_process o my_uid my_tty entries in
    if is_shown o my_uid my_tty d then d ∷ rest else rest

-- An option adds processes and takes none away.
letter-is_shown :
    (o : Options) (c my_uid : ℕ) (my_tty : Text) (d : Entry)
    → is_shown o my_uid my_tty d ≡ true
    → is_shown (letter o c) my_uid my_tty d ≡ true
unfolding is_shown letter
letter-is_shown o c my_uid my_tty d h = ground arith

letters-is_shown :
    (o : Options) (cs : Text) (my_uid : ℕ) (my_tty : Text) (d : Entry)
    → is_shown o my_uid my_tty d ≡ true
    → is_shown (letters o cs) my_uid my_tty d ≡ true
unfolding letters
letters-is_shown o [] my_uid my_tty d h = h
letters-is_shown o (c ∷ cs) my_uid my_tty d h =
    letters-is_shown (letter o c) cs my_uid my_tty d (letter-is_shown o c my_uid my_tty d h)

-- The letters of one more argument take no process off the list, and leave the order as it is.
search_process-letters :
    (o : Options) (cs : Text) (my_uid : ℕ) (my_tty : Text) (entries : List Entry)
    → Sublistᴰ
        (search_process o my_uid my_tty entries)
        (search_process (letters o cs) my_uid my_tty entries)
unfolding search_process
search_process-letters o cs my_uid my_tty [] = Sublistᴰ.slnil
search_process-letters o cs my_uid my_tty (d ∷ entries) =
    let rest = search_process-letters o cs my_uid my_tty entries in
    elim (Bool-cases (is_shown o my_uid my_tty d)) [
      | inl shown ↦
          rw (shown, letters-is_shown o cs my_uid my_tty d shown) (Sublistᴰ.cons-cons refl rest)
      | inr hidden ↦ elim (Bool-cases (is_shown (letters o cs) my_uid my_tty d)) [
        | inl more ↦ rw (hidden, more) (Sublistᴰ.cons rest)
        | inr still ↦ rw (hidden, still) rest
      ]
    ]

-- An entry that `stat` reads and that is not the terminal looked for.
abbrev IsOther : ℕ → Device → Type 0
IsOther tty_nr d = (c : Bool) × (r : ℕ) × (d.stat ≡ some (c, r)) × ((c && (r == tty_nr)) ≡ false)

-- GetTTY without a descriptor 0 gives the name of the first character device of /dev whose number is
-- the process's, if `stat` succeeds on the entries before it and it has less than 32 bytes.
find_tty-first :
    (tty_nr : ℕ) (before : List Device) (d : Device) (rest : List Device)
    → All (IsOther tty_nr) before
    → d.stat ≡ some (true, tty_nr)
    → length d.name < 32
    → find_tty tty_nr (before ++ (d ∷ rest)) ≡ some d.name
unfolding find_tty
find_tty-first tty_nr [] d rest h e l =
    let same : (tty_nr == tty_nr) ≡ true = ground arith in
    let fits : ltb (length d.name) 32 ≡ true = ground (arith, l) in simp (e, same, fits)
find_tty-first tty_nr (b ∷ before) d rest ((c, r, s, other), h) e l =
    simp (s, other) (find_tty-first tty_nr before d rest h e l)
