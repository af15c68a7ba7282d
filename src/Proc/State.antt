-- ===== src/Proc/State.antt =====
-- The column STAT of Assignment_2/myps.c: the state and its marks.
use ssu_operating_system.Base.{
  ℕ, zero, suc, ◌≤◌, ◌<◌, ◌≡◌, refl, ◌∙◌, Bool, true, false, not, ◌&&◌, ◌||◌, [], ◌∷◌, ◌++◌, ltb,
  ◌==◌, if◌then◌else◌, arith, length, length-append,
}
use ssu_operating_system.Base.Int.{ℤ, pos, negsuc, is_negative, eqb}
use ssu_operating_system.Base.Text.{Text, codes}
use ssu_operating_system.Proc.Token.{to_ulong}

abbrev is_positive : ℤ → Bool
is_positive (pos zero) = false
is_positive (pos (suc n)) = true
is_positive (negsuc n) = false

-- `strcat(proc.stat, "L")` and the like, if the condition holds.
abbrev appended : Bool → ℕ → Text
appended true c = c ∷ []
appended false c = []

-- `proc.stat`, from the state of the process, its nice value, the memory locked, its session, its
-- number, its threads and the foreground group of its terminal.
unfoldable pub state : Text → ℤ → ℕ → ℤ → ℕ → ℤ → ℤ → Text
state base nice vm_lck sid pid threads tpgid =
    base
    ++ ((if is_negative nice then codes "<" else if is_positive nice then codes "N" else [])
        ++ (appended (ltb 0 vm_lck) b'L'
            ++ (appended (to_ulong sid == pid) b's'
                ++ (appended (is_positive threads && not (eqb threads (pos 1))) b'l'
                    ++ appended (not (eqb tpgid (negsuc 0))) b'+'))))

-- A appended is in the text.
abbrev pub has : ℕ → Text → Bool
has c [] = false
has c (d ∷ ds) = (c == d) || has c ds

-- The letters that the kernel has for a state are none of the marks.
abbrev pub IsPlain : ℕ → Type 0
IsPlain c =
    (c == b'<' || (c == b'N' || (c == b'L' || (c == b's' || (c == b'l' || c == b'+'))))) ≡ false

abbrev marks : Bool → Bool → Bool → Bool → Bool → Bool → Text
marks lo hi locked leader many front =
    (if lo then codes "<" else if hi then codes "N" else [])
    ++ (appended locked b'L'
        ++ (appended leader b's' ++ (appended many b'l' ++ appended front b'+')))

has-append : (c : ℕ) (s t : Text) → has c (s ++ t) ≡ (has c s || has c t)
has-append c [] t = refl
has-append c (d ∷ s) t = ground (arith, has-append c s t)

has-appended : (c d : ℕ) (b : Bool) → has c (appended b d) ≡ (b && c == d)
has-appended c d true = ground arith
has-appended c d false = refl

has-sign :
    (c : ℕ) (lo hi : Bool)
    → has c (if lo then codes "<" else if hi then codes "N" else [])
      ≡ ((lo && c == b'<') || (not lo && (hi && c == b'N')))
has-sign c true hi = ground arith
has-sign c false true = ground arith
has-sign c false false = refl

length-marks :
    (lo hi locked leader many front : Bool) → length (marks lo hi locked leader many front) ≤ 5
length-marks lo hi locked leader many front = omega (
  arith,
  length-append (if lo then codes "<" else if hi then codes "N" else []) (
      appended locked b'L'
      ++ (appended leader b's' ++ (appended many b'l' ++ appended front b'+'))),
  length-append (appended locked b'L')
      (appended leader b's' ++ (appended many b'l' ++ appended front b'+')),
  length-append (appended leader b's') (appended many b'l' ++ appended front b'+'),
  length-append (appended many b'l') (appended front b'+'),
  one locked b'L',
  one leader b's',
  one many b'l',
  one front b'+',
  sign lo hi,
)
  where
    one : (b : Bool) (c : ℕ) → length (appended b c) ≤ 1
    one true c = omega arith
    one false c = omega arith

    sign : (a b : Bool) → length (if a then codes "<" else if b then codes "N" else []) ≤ 1
    sign true b = omega arith
    sign false true = omega arith
    sign false false = omega arith

has-marks :
    (c d : ℕ) (lo hi locked leader many front : Bool)
    → (c == d) ≡ false
    → has c (d ∷ marks lo hi locked leader many front) ≡ (
        ((lo && c == b'<') || (not lo && (hi && c == b'N')))
        || ((locked && c == b'L')
            || ((leader && c == b's') || ((many && c == b'l') || (front && c == b'+')))))
has-marks c d lo hi locked leader many front e = rw e (simp (has-append, has-sign, has-appended))

-- Each appended stands for its condition.
each-mark :
    (d : ℕ) (lo hi locked leader many front : Bool)
    → IsPlain d
    → (lo && hi) ≡ false
    → let text = d ∷ marks lo hi locked leader many front in
      (has b'<' text ≡ lo)
      × (has b'N' text ≡ hi)
      × (has b'L' text ≡ locked)
      × (has b's' text ≡ leader)
      × (has b'l' text ≡ many)
      × (has b'+' text ≡ front)
each-mark d lo hi locked leader many front p x = (
  has-marks b'<' d lo hi locked leader many front (ground (arith, p)) ∙ ground (arith, x),
  has-marks b'N' d lo hi locked leader many front (ground (arith, p)) ∙ ground (arith, x),
  has-marks b'L' d lo hi locked leader many front (ground (arith, p)) ∙ ground (arith, x),
  has-marks b's' d lo hi locked leader many front (ground (arith, p)) ∙ ground (arith, x),
  has-marks b'l' d lo hi locked leader many front (ground (arith, p)) ∙ ground (arith, x),
  has-marks b'+' d lo hi locked leader many front (ground (arith, p)) ∙ ground (arith, x),
)

one_sign : (n : ℤ) → (is_negative n && is_positive n) ≡ false
one_sign (pos zero) = refl
one_sign (pos (suc n)) = refl
one_sign (negsuc n) = refl

-- STAT with a state of one letter says by its marks just what it is made from, and fits its 8 bytes.
pub state-has :
    (c : ℕ) (nice : ℤ) (vm_lck : ℕ) (sid : ℤ) (pid : ℕ) (threads tpgid : ℤ)
    → IsPlain c
    → let text = state (c ∷ []) nice vm_lck sid pid threads tpgid in
      (has b'<' text ≡ is_negative nice)
      × (has b'N' text ≡ is_positive nice)
      × (has b'L' text ≡ ltb 0 vm_lck)
      × (has b's' text ≡ (to_ulong sid == pid))
      × (has b'l' text ≡ (is_positive threads && not (eqb threads (pos 1))))
      × (has b'+' text ≡ not (eqb tpgid (negsuc 0)))
      × (length text < 8)
unfolding state
state-has c nice vm_lck sid pid threads tpgid h =
    let (lo, hi, l, s, m, f) =
      each-mark c (is_negative nice) (is_positive nice) (ltb 0 vm_lck) (to_ulong sid == pid)
        (is_positive threads && not (eqb threads (pos 1))) (not (eqb tpgid (negsuc 0))) h
        (one_sign nice) in
    (
      lo,
      hi,
      l,
      s,
      m,
      f,
      omega (
        arith,
        length-marks (is_negative nice) (is_positive nice) (ltb 0 vm_lck) (to_ulong sid == pid)
            (is_positive threads && not (eqb threads (pos 1))) (not (eqb tpgid (negsuc 0))),
      ),
    )
