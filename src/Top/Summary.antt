-- ===== src/Top/Summary.antt =====
-- The lines above the columns in PrintTOP of Assignment_2/mytop.c: the time since the start of the
-- machine, the tasks, the shares of the processor and the memory. A share is a fraction, as printed with
-- `%4.1Lf`; `none` is what C leaves undefined and the end of the program by `exit(1)`. The users and the
-- load are left out.
pub mod Ticks
pub mod Interval
pub mod Balance
use ssu_operating_system.Base.{
  ℕ, zero, suc, ◌+◌, ◌-◌, ◌*◌, ◌/◌, ◌%◌, ◌^◌, ◌<◌, ◌≤◌, ◌≡◌, Bool, true, false, ◌&&◌, ◌||◌, Option,
  none, some, List, [], ◌∷◌, ◌++◌, ◌>>=◌, if◌then◌else◌, ltb, leb, ◌==◌, length, replicate,
}
use ssu_operating_system.Base.Int.{ℤ, pos, negsuc}
use ssu_operating_system.Base.Text.{Text, codes, text_eq, decimal, is_digit, skip, spaces}
use ssu_operating_system.Input.{Cursor, fgets, reads, read_to, number}
use ssu_operating_system.Proc.Host.{to_digit}
use ssu_operating_system.Proc.Times.{tm_hour, tm_min, two_digits}
use ssu_operating_system.Top.Columns.{minus}

-- `tm_yday` of `gmtime`, for the years up to 2099.
abbrev tm_yday : ℕ → ℕ
tm_yday t =
    let d = t / 86_400 % 1461 in
    if ltb d 365 then d else if ltb d 730 then d - 365 else if ltb d 1096 then d - 730 else d - 1096

-- `%2d` and `%3d`.
abbrev padded : ℕ → Text → Text
padded width t = spaces (width - length t) ++ t

-- `upStr`.
unfoldable pub up_text : ℕ → Text
unfolding two_digits
up_text uptime =
    if ltb uptime 3600
    then padded 2 (decimal (tm_min uptime)) ++ codes " min"
    else if ltb uptime 86_400
    then padded 2 (decimal (tm_hour uptime)) ++ (b':' ∷ two_digits (tm_min uptime))
    else padded 3 (decimal (tm_yday uptime))
      ++ (codes " days, " ++ (two_digits (tm_hour uptime) ++ (b':' ∷ two_digits (tm_min uptime))))

-- The counts of the second line.
pub record Tasks : Type 0 where
  pub total : ℕ
  pub running : ℕ
  pub sleeping : ℕ
  pub stopped : ℕ
  pub zombie : ℕ

-- `strcmp(stat, s)` with a text of one byte.
abbrev pub is_state : Text → ℕ → Bool
is_state stat c = text_eq stat (c ∷ [])

abbrev pub is_asleep : Text → Bool
is_asleep stat = is_state stat b'D' || (is_state stat b'S' || is_state stat b'I')

abbrev pub is_stopped : Text → Bool
is_stopped stat = is_state stat b'T' || is_state stat b't'

-- A round of the loop over `procList`, whose states these are.
pub count_task : Tasks → Text → Tasks
count_task n stat =
    if is_state stat b'R'
    then record n { running = n.running + 1 }
    else if is_asleep stat
    then record n { sleeping = n.sleeping + 1 }
    else if is_stopped stat
    then record n { stopped = n.stopped + 1 }
    else if is_state stat b'Z'
    then record n { zombie = n.zombie + 1 }
    else n

pub count_from : Tasks → List Text → Tasks
unfolding count_task
count_from n [] = n
count_from n (stat ∷ stats) = count_from (count_task n stat) stats

pub count_tasks : List Text → Tasks
unfolding count_from
count_tasks stats =
    count_from (record { total = length stats; running = 0; sleeping = 0; stopped = 0; zombie = 0 })
      stats

-- Behind the digits in front.
pub after_digits : Text → Text
after_digits [] = []
after_digits (c ∷ cs) = if is_digit c then after_digits cs else c ∷ cs

abbrev no_ticks : ℕ → List ℕ
no_ticks n = replicate n 0

-- So many whole numbers of a row, as `sscanf` reads them with `%Lf` into an array of zeros up to the
-- first text that is no number.
pub read_ticks : ℕ → Text → List ℕ
unfolding after_digits
read_ticks zero t = []
read_ticks (suc n) t =
    let rest = read_ticks n (after_digits (skip t)) in
    elim (skip t) [
      | [] ↦ no_ticks (suc n)
      | c ∷ cs ↦ if is_digit c then number 0 (c ∷ cs) ∷ rest else no_ticks (suc n)
    ]

-- What is kept from one call of PrintTOP to the next.
pub record Before : Type 0 where
  pub uptime : ℕ
  pub ticks : List ℕ

-- `results`, from the numbers read and those read before.
pub results_of : List ℕ → List ℕ → List ℤ
results_of (t ∷ ts) (b ∷ bs) = minus t b ∷ results_of ts bs
results_of [] bs = []
results_of (t ∷ ts) [] = []

pub plain : List ℕ → List ℤ
plain [] = []
plain (t ∷ ts) = pos t ∷ plain ts

-- A share of `tickCnt`, times 100, where it is a number.
pub share : ℕ → ℤ → ℤ × ℕ
share tick_cnt result = if tick_cnt == 0 then (pos 0, 1) else (result, tick_cnt)

pub shares : ℕ → List ℤ → List (ℤ × ℕ)
unfolding share
shares tick_cnt [] = []
shares tick_cnt (r ∷ rs) = share tick_cnt r ∷ shares tick_cnt rs

-- The third line, in the order of /proc/stat, and what is kept.
pub cpu_line : ℕ → Before → ℕ → Option Text → Option (List (ℤ × ℕ) × Before)
unfolding to_digit read_ticks shares
cpu_line hertz before uptime none = none
cpu_line hertz before uptime (some file) = do
  ptr ← to_digit (fgets 1023 file).0
  let ticks = read_ticks 8 ptr in
      if before.uptime == 0
      then some (
        shares (uptime * hertz % 2 ^ 64) (plain ticks),
        record { uptime = uptime; ticks = ticks },
      )
      else some (
        shares ((uptime + 2 ^ 64 - before.uptime) * hertz % 2 ^ 64) (results_of ticks before.ticks),
        record { uptime = uptime; ticks = ticks },
      )

-- The numbers of the fourth and fifth lines, in KiB.
pub record MemInfo : Type 0 where
  pub mem_total : ℕ
  pub mem_free : ℕ
  pub mem_used : ℕ
  pub buff_cache : ℕ
  pub mem_available : ℕ
  pub swap_total : ℕ
  pub swap_free : ℕ
  pub swap_used : ℕ

-- `a - b` of an unsigned long.
abbrev pub minus_wrapped : ℕ → ℕ → ℕ
minus_wrapped a b = (a + (2 ^ 64 - b)) % 2 ^ 64

-- From the values of the rows 1, 2, 3, 4, 5, 15, 16 and 24 of /proc/meminfo.
pub mem_info : ℕ → ℕ → ℕ → ℕ → ℕ → ℕ → ℕ → ℕ → MemInfo
mem_info total free available buffers cached swap_total swap_free s_reclaimable = record {
  mem_total = total;
  mem_free = free;
  mem_used =
      minus_wrapped (minus_wrapped (minus_wrapped (minus_wrapped total free) buffers) cached)
        s_reclaimable;
  buff_cache = (buffers + cached + s_reclaimable) % 2 ^ 64;
  mem_available = available;
  swap_total = swap_total;
  swap_free = swap_free;
  swap_used = minus_wrapped swap_total swap_free;
}

-- `while (!isdigit(*ptr)) ptr++; sscanf(ptr, "%lu", …)`, in a row.
unfoldable pub row_number : Text → Option ℕ
unfolding to_digit
row_number buf = do ptr ← to_digit buf; some (number 0 ptr)

pub read_meminfo : Text → Option MemInfo
unfolding row_number
read_meminfo file =
    let c1 = read_to 1 (record { cnt = 0; buf = []; rest = reads file }) in
    let c2 = read_to 2 c1 in
    let c3 = read_to 3 c2 in
    let c4 = read_to 4 c3 in
    let c5 = read_to 5 c4 in
    let c15 = read_to 15 c5 in
    let c16 = read_to 16 c15 in
    let c24 = read_to 24 c16 in
    do
      total ← row_number c1.buf
      free ← row_number c2.buf
      available ← row_number c3.buf
      buffers ← row_number c4.buf
      cached ← row_number c5.buf
      swap_total ← row_number c15.buf
      swap_free ← row_number c16.buf
      s_reclaimable ← row_number c24.buf
      some (mem_info total free available buffers cached swap_total swap_free s_reclaimable)

-- A number of KiB in the unit chosen, from KIB, which is 1, on: what is divided, and by what.
in_byte_unit : ℕ → ℕ → ℕ × ℕ
in_byte_unit byte_unit kib = (kib, 1024 ^ (byte_unit - 1))
