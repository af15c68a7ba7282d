-- ===== src/Proc/Times.antt =====
-- The columns START and TIME of Assignment_2/myps.c and mytop.c. What `localtime` and `strftime` print
-- is an argument, since it depends on the time zone.
use mathlib.Core.List.{append-nil}
use ssu_operating_system.Base.{
  ℕ, ◌+◌, ◌-◌, ◌*◌, ◌/◌, ◌%◌, ◌^◌, ◌≤◌, ◌<◌, ◌≡◌, refl, ◌∙◌, ap, sym, Bool, true, false, [], ◌∷◌,
  ◌++◌, ltb, leb, ◌⊎◌, inl, inr, ◌==◌, if◌then◌else◌, arith,
}
use ssu_operating_system.Base.Text.{
  Text, decimal, value, all_digits, value-decimal, decimal-all_digits,
}

-- `%02d`.
unfoldable pub two_digits : ℕ → Text
two_digits n = if ltb n 10 then b'0' ∷ decimal n else decimal n

-- The fields of `gmtime`: the hour of the day, the minute and the second.
abbrev pub tm_hour : ℕ → ℕ
tm_hour t = t / 3600 % 24

abbrev pub tm_min : ℕ → ℕ
tm_min t = t / 60 % 60

abbrev tm_sec : ℕ → ℕ
tm_sec t = t % 60

-- `proc.time` of myps: with the hour or without.
unfoldable pub time_text : Bool → ℕ → Text
unfolding two_digits
time_text true t =
    two_digits (tm_hour t) ++ (b':' ∷ (two_digits (tm_min t) ++ (b':' ∷ two_digits (tm_sec t))))
time_text false t = decimal (tm_min t) ++ (b':' ∷ two_digits (tm_sec t))

-- `proc.time` of mytop, from all the ticks.
unfoldable pub time_plus : ℕ → ℕ → Text
unfolding two_digits
time_plus total hertz =
    let t = total / hertz in
    decimal (tm_min t) ++ (b':' ∷ (two_digits (tm_sec t) ++ (b'.' ∷ two_digits (total % 100))))

-- The formats "%H:%M", "%b %d" and "%y".
pub data StartFormat : Type 0 where
  clock day year : StartFormat

-- `start`, an `unsigned long`.
abbrev start_time : ℕ → ℕ → ℕ → ℕ → ℕ
start_time now uptime ticks hertz = (now + 2 ^ 64 - uptime + ticks / hertz) % 2 ^ 64

-- `proc.start`, with one value of `time(NULL)`.
unfoldable pub start_text : (StartFormat → ℕ → Text) → ℕ → ℕ → ℕ → ℕ → Text
start_text strftime now uptime ticks hertz =
    let start = start_time now uptime ticks hertz in
    let age = (now + 2 ^ 64 - start) % 2 ^ 64 in
    if ltb age 86_400
    then strftime clock start
    else if ltb age 604_800
    then strftime day start
    else strftime year start

-- How the text of a time is read: the fields, each counting 60 of the next.
pub read_time : ℕ → ℕ → Text → ℕ
read_time acc field [] = acc * 60 + field
read_time acc field (c ∷ cs) =
    if c == b':'
    then read_time (acc * 60 + field) 0 cs
    else read_time acc (field * 10 + (c - b'0')) cs

read_time-digits :
    (acc field : ℕ) (t rest : Text)
    → all_digits t ≡ true
    → read_time acc field (t ++ rest) ≡ read_time acc (value field t) rest
unfolding read_time value
read_time-digits acc field [] rest h = refl
read_time-digits acc field (c ∷ t) rest h =
    ground (arith, read_time-digits acc (field * 10 + (c - b'0')) t rest)

two_digits_lem : (n : ℕ) → (all_digits (two_digits n) ≡ true) × (value 0 (two_digits n) ≡ n)
unfolding two_digits value
two_digits_lem n = ground (arith, decimal-all_digits n, value-decimal n)

read_time-two :
    (acc n : ℕ) (rest : Text) → read_time acc 0 (two_digits n ++ rest) ≡ read_time acc n rest
read_time-two acc n rest =
    let (d, v) = two_digits_lem n in rw (read_time-digits acc 0 (two_digits n) rest d, v) refl

read_time-decimal :
    (acc n : ℕ) (rest : Text) → read_time acc 0 (decimal n ++ rest) ≡ read_time acc n rest
read_time-decimal acc n rest =
    rw (read_time-digits acc 0 (decimal n) rest (decimal-all_digits n), value-decimal n) refl

read_time-colon :
    (acc field : ℕ) (rest : Text)
    → read_time acc field (b':' ∷ rest) ≡ read_time (acc * 60 + field) 0 rest
unfolding read_time
read_time-colon acc field rest = refl

read_time-last : (acc n : ℕ) → read_time acc 0 (two_digits n) ≡ acc * 60 + n
unfolding read_time
read_time-last acc n =
    ap (read_time acc 0) (sym (append-nil (two_digits n))) ∙ read_time-two acc n []

-- TIME with the hour gives the time used but for whole days, and without it but for whole hours.
pub time_text-read_time :
    (t : ℕ)
    → (read_time 0 0 (time_text true t) ≡ t % 86_400)
      × (read_time 0 0 (time_text false t) ≡ t % 3600)
unfolding time_text
time_text-read_time t = (
  rw
      (
        read_time-two 0 (tm_hour t)
            (b':' ∷ (two_digits (tm_min t) ++ (b':' ∷ two_digits (tm_sec t)))),
        read_time-colon 0 (tm_hour t) (two_digits (tm_min t) ++ (b':' ∷ two_digits (tm_sec t))),
        read_time-two (0 * 60 + tm_hour t) (tm_min t) (b':' ∷ two_digits (tm_sec t)),
        read_time-colon (0 * 60 + tm_hour t) (tm_min t) (two_digits (tm_sec t)),
        read_time-last ((0 * 60 + tm_hour t) * 60 + tm_min t) (tm_sec t),
      )
      (omega arith),
  rw
      (
        read_time-decimal 0 (tm_min t) (b':' ∷ two_digits (tm_sec t)),
        read_time-colon 0 (tm_min t) (two_digits (tm_sec t)),
        read_time-last (0 * 60 + tm_min t) (tm_sec t),
      )
      (omega arith),
)

abbrev pub by_age : (StartFormat → ℕ → Text) → ℕ → ℕ → Text
by_age strftime age start =
    if ltb age 86_400
    then strftime clock start
    else if ltb age 604_800
    then strftime day start
    else strftime year start

-- The sums wrap round.
start_before :
    (now uptime n : ℕ)
    → uptime ≤ now
    → now < 2 ^ 63
    → n ≤ uptime
    → (now + 2 ^ 64 - uptime + n) % 2 ^ 64 ≡ now - (uptime - n)
start_before now uptime n p q l = omega arith

age_before : (now age : ℕ) → age ≤ now → now < 2 ^ 63 → (now + 2 ^ 64 - (now - age)) % 2 ^ 64 ≡ age
age_before now age l q = omega arith

start_after :
    (now uptime n : ℕ)
    → uptime ≤ now
    → now < 2 ^ 63
    → uptime < n
    → n < 2 ^ 32
    → (now + 2 ^ 64 - uptime + n) % 2 ^ 64 ≡ now + (n - uptime)
start_after now uptime n p q l k = omega arith

age_after :
    (now n : ℕ)
    → 0 < n
    → n < 2 ^ 32
    → now < 2 ^ 63
    → (now + 2 ^ 64 - (now + n)) % 2 ^ 64 ≡ 2 ^ 64 - n
age_after now n l k q = omega arith

late : (n limit : ℕ) → n < 2 ^ 32 → limit < 2 ^ 32 → ltb (2 ^ 64 - n) limit ≡ false
late n limit k l = ground arith

start_text-cases :
    (strftime : StartFormat → ℕ → Text) (now uptime ticks hertz : ℕ)
    → uptime ≤ now
    → now < 2 ^ 63
    → (ticks / hertz ≤ uptime
        → let age = uptime - ticks / hertz in
          start_text strftime now uptime ticks hertz ≡ by_age strftime age (now - age))
      × (uptime < ticks / hertz
          → ticks / hertz < 2 ^ 32
          → start_text strftime now uptime ticks hertz
            ≡ strftime year (now + (ticks / hertz - uptime)))
unfolding start_text
start_text-cases strftime now uptime ticks hertz p q = (
  λ l.
      rw
        (
          start_before now uptime (ticks / hertz) p q l,
          age_before now (uptime - ticks / hertz) (omega arith) q,
        )
        refl,
  λ l k.
      rw
        (
          start_after now uptime (ticks / hertz) p q l k,
          age_after now (ticks / hertz - uptime) (omega arith) (omega arith) q,
          late (ticks / hertz - uptime) 86_400 (omega arith) (omega arith),
          late (ticks / hertz - uptime) 604_800 (omega arith) (omega arith),
        )
        refl,
)

-- A process that started no later than /proc/uptime was read.
pub start_text-old :
    (strftime : StartFormat → ℕ → Text) (now uptime ticks hertz : ℕ)
    → uptime ≤ now
    → now < 2 ^ 63
    → ticks / hertz ≤ uptime
    → let age = uptime - ticks / hertz in
      start_text strftime now uptime ticks hertz ≡ by_age strftime age (now - age)
start_text-old strftime now uptime ticks hertz p q l =
    (start_text-cases strftime now uptime ticks hertz p q).0 l

-- START goes by the age of the process, if it started no later than /proc/uptime was read; a process
-- that started later is shown by its year. The clock is no earlier than the start of the machine and
-- less than 2 ^ 63, and the process started less than 2 ^ 32 seconds after it.
pub start_text-by_age :
    (strftime : StartFormat → ℕ → Text) (now uptime ticks hertz : ℕ)
    → uptime ≤ now
    → now < 2 ^ 63
    → ticks / hertz < 2 ^ 32
    → let since = ticks / hertz in
      start_text strftime now uptime ticks hertz ≡ (
        if leb since uptime
        then by_age strftime (uptime - since) (now - (uptime - since))
        else strftime year (now + (since - uptime)))
start_text-by_age strftime now uptime ticks hertz p q k =
    let (old, late) = start_text-cases strftime now uptime ticks hertz p q in
    elim (older (ticks / hertz) uptime) [
      | inl l ↦ rw (old l) (ground (arith, l))
      | inr l ↦ rw (late l k) (ground (arith, l))
    ]
  where
    older : (n m : ℕ) → (n ≤ m) ⊎ (m < n)
    older n m = ground arith
