-- ===== src/Top/Summary/Interval.antt =====
-- The third line that Assignment_2/mytop.c prints, from one time to the next.
use native.Mathlib.Nat.{native_laws, mul-le-mul_right, mod-eq_of_lt}
use ssu_operating_system.Base.{
  ℕ, ◌+◌, ◌-◌, ◌*◌, ◌%◌, ◌^◌, ◌<◌, ◌≤◌, ◌≡◌, refl, sym, ◌∙◌, ap, ap₂, false, Option, none, some,
  some_eq, List, [], ◌∷◌, ◌++◌, ◌>>=◌, if◌then◌else◌, ltb, ◌==◌, length, All, map, arith,
  Bool-cases, inl, inr,
}
use ssu_operating_system.Base.Int.{ℤ, pos}
use ssu_operating_system.Base.Text.{Text}
use ssu_operating_system.Input.{fgets}
use ssu_operating_system.Proc.Host.{to_digit}
use ssu_operating_system.Top.Columns.{minus}
use ssu_operating_system.Top.Summary.{
  read_ticks, Before, results_of, plain, share, shares, cpu_line,
}
use ssu_operating_system.Top.Summary.Ticks.{ticks_text, stat_file, row_ticks}

-- The ticks of some seconds, though the difference wraps round.
tick_cnt_lem :
    (a b hertz : ℕ)
    → b ≤ a
    → a * hertz < 2 ^ 64
    → (a + 2 ^ 64 - b) * hertz % 2 ^ 64 ≡ (a - b) * hertz
tick_cnt_lem a b hertz l h =
    let split : (a + 2 ^ 64 - b) * hertz ≡ (a - b) * hertz + 2 ^ 64 * hertz =
      rw (same_difference a b l) (grind arith) in
    let less : (a - b) * hertz ≤ a * hertz = mul-le-mul_right hertz (omega arith) in
    ap (λ n. n % 2 ^ 64) split
    ∙ native_laws.add-mul-mod_self_left ((a - b) * hertz) (2 ^ 64) hertz
    ∙ mod-eq_of_lt (omega (arith, less, h))
  where
    same_difference : (a b : ℕ) → b ≤ a → a + 2 ^ 64 - b ≡ (a - b) + 2 ^ 64
    same_difference a b l = omega arith

-- Each number with what is added to it.
abbrev pub add_each : List ℕ → List ℕ → List ℕ
add_each [] ds = []
add_each (t ∷ ts) [] = []
add_each (t ∷ ts) (d ∷ ds) = (t + d) ∷ add_each ts ds

minus-add : (t d : ℕ) → minus (t + d) t ≡ pos d
minus-add t d =
    let no_less : ltb (t + d) t ≡ false = ground arith in rw no_less (ap pos (omega arith))

results_of-add_each :
    (ts ds : List ℕ) → length ds ≡ length ts → results_of (add_each ts ds) ts ≡ plain ds
unfolding results_of plain
results_of-add_each [] [] h = refl
results_of-add_each [] (d ∷ ds) h = absurd (omega (arith, h))
results_of-add_each (t ∷ ts) [] h = absurd (omega (arith, h))
results_of-add_each (t ∷ ts) (d ∷ ds) h =
    ap₂ (λ x xs. x ∷ xs) (minus-add t d) (results_of-add_each ts ds (omega (arith, h)))

length-add_each : (ts ds : List ℕ) → length ds ≡ length ts → length (add_each ts ds) ≡ length ts
length-add_each [] ds h = refl
length-add_each (t ∷ ts) [] h = absurd (omega (arith, h))
length-add_each (t ∷ ts) (d ∷ ds) h = omega (arith, length-add_each ts ds (omega (arith, h)))

shares-plain :
    (tick_cnt : ℕ) (ds : List ℕ)
    → 0 < tick_cnt
    → shares tick_cnt (plain ds) ≡ map (λ d. (pos d, tick_cnt)) ds
unfolding shares plain share
shares-plain tick_cnt [] h = refl
shares-plain tick_cnt (d ∷ ds) h =
    let some_ticks : (tick_cnt == 0) ≡ false = ground (arith, h) in
    rw some_ticks (ap (λ r. (pos d, tick_cnt) ∷ r) (shares-plain tick_cnt ds h))

-- What the third line makes of numbers that are read.
line_of : ℕ → Before → ℕ → List ℕ → Option (List (ℤ × ℕ) × Before)
line_of hertz before uptime ticks =
    if before.uptime == 0
    then some
        (shares (uptime * hertz % 2 ^ 64) (plain ticks), record { uptime = uptime; ticks = ticks })
    else some (
      shares ((uptime + 2 ^ 64 - before.uptime) * hertz % 2 ^ 64) (results_of ticks before.ticks),
      record { uptime = uptime; ticks = ticks },
    )

cpu_line-line_of :
    (hertz uptime : ℕ) (before : Before) (file : Text) (ts : List ℕ)
    → (to_digit (fgets 1023 file).0 >>= (λ ptr. some (read_ticks 8 ptr))) ≡ some ts
    → cpu_line hertz before uptime (some file) ≡ line_of hertz before uptime ts
unfolding cpu_line line_of
cpu_line-line_of hertz uptime before file ts e = read (to_digit (fgets 1023 file).0) e
  where
    read :
        (o : Option Text)
        → (o >>= (λ ptr. some (read_ticks 8 ptr))) ≡ some ts
        → (o >>= (λ ptr. line_of hertz before uptime (read_ticks 8 ptr)))
          ≡ line_of hertz before uptime ts
    read none q = cc
    read (some ptr) q = ap (line_of hertz before uptime) (some_eq q)

line_of-some :
    (hertz uptime : ℕ) (before : Before) (ts : List ℕ)
    → (s : List (ℤ × ℕ)) × (line_of hertz before uptime ts
        ≡ some (s, record { uptime = uptime; ticks = ts }))
unfolding line_of
line_of-some hertz uptime before ts = elim (Bool-cases (before.uptime == 0)) [
  | inl first ↦ (shares (uptime * hertz % 2 ^ 64) (plain ts), rw first refl)
  | inr later ↦ (
    shares ((uptime + 2 ^ 64 - before.uptime) * hertz % 2 ^ 64) (results_of ts before.ticks),
    rw later refl,
  )
]

line_of-later :
    (hertz up1 up2 : ℕ) (ts ds : List ℕ)
    → length ds ≡ length ts
    → 0 < hertz
    → 0 < up1
    → up1 < up2
    → up2 * hertz < 2 ^ 64
    → line_of hertz (record { uptime = up1; ticks = ts }) up2 (add_each ts ds)
      ≡ some (
        map (λ d. (pos d, (up2 - up1) * hertz)) ds,
        record { uptime = up2; ticks = add_each ts ds },
      )
unfolding line_of
line_of-later hertz up1 up2 ts ds e h p l k =
    let known : (up1 == 0) ≡ false = ground (arith, p) in
    let some_ticks : 0 < (up2 - up1) * hertz = positive (up2 - up1) hertz (omega (arith, l)) h in
    rw
      (
        known,
        tick_cnt_lem up2 up1 hertz (omega (arith, l)) k,
        results_of-add_each ts ds e,
        shares-plain ((up2 - up1) * hertz) ds some_ticks,
      )
      refl
  where
    positive : (a b : ℕ) → 0 < a → 0 < b → 0 < a * b
    positive a b h k = omega (arith, mul-le-mul_right b h, k)

-- Where /proc/stat has eight numbers at first, and some more each at the next printing, the third
-- line of mytop is printed both times, and at the second it shows each of the additions as a share
-- of the ticks of one processor in the time between. The numbers fit 64 bits and the first row the
-- buffer, the first printing is a second at least after the start of the machine and the second
-- printing a second at least later, and the ticks until then fit 64 bits.
pub cpu_line-add_each :
    (hertz up1 up2 : ℕ) (before : Before) (ts ds more1 more2 : List ℕ) (rest1 rest2 : Text)
    → length ts ≡ 8
    → length ds ≡ 8
    → All (λ t. t < 2 ^ 64) ts
    → All (λ t. t < 2 ^ 64) (add_each ts ds)
    → length (ticks_text (ts ++ more1)) < 1019
    → length (ticks_text (add_each ts ds ++ more2)) < 1019
    → 0 < hertz
    → 0 < up1
    → up1 < up2
    → up2 * hertz < 2 ^ 64
    → (s1 : List (ℤ × ℕ)) × (first : Before) × (cpu_line hertz before up1
          (some (stat_file (ts ++ more1) rest1))
        ≡ some (s1, first))
      × (cpu_line hertz first up2 (some (stat_file (add_each ts ds ++ more2) rest2))
          ≡ some (
            map (λ d. (pos d, (up2 - up1) * hertz)) ds,
            record { uptime = up2; ticks = add_each ts ds },
          ))
cpu_line-add_each hertz up1 up2 before ts ds more1 more2 rest1 rest2 e1 e2 h1 h2 l1 l2 h p l k =
    let (s1, printed) = line_of-some hertz up1 before ts in
    let same : length ds ≡ length ts = e2 ∙ sym e1 in
    (
      s1,
      record { uptime = up1; ticks = ts },
      cpu_line-line_of hertz up1 before (stat_file (ts ++ more1) rest1) ts
            (row_ticks ts more1 rest1 e1 h1 l1)
          ∙ printed,
      cpu_line-line_of hertz up2 (record { uptime = up1; ticks = ts })
            (stat_file (add_each ts ds ++ more2) rest2) (add_each ts ds)
            (row_ticks (add_each ts ds) more2 rest2 (length-add_each ts ds same ∙ e1) h2 l2)
          ∙ line_of-later hertz up1 up2 ts ds same h p l k,
    )
