-- ===== src/Top/Keys.antt =====
-- The loop of `main` in Assignment_2/mytop.c: the keys, and when the screen is drawn again. What a
-- round reads from outside is an `Event`: the key of `getch`, the time, the number of processes
-- that SearchProcess finds, and the number that KillProcess reads.
pub mod Periods
use ssu_operating_system.Base.{
  ℕ, zero, suc, ◌+◌, ◌-◌, ◌%◌, ◌^◌, ◌<◌, ◌≤◌, ◌≡◌, refl, Bool, true, false, not, ◌||◌, ◌&&◌, List,
  [], ◌∷◌, ◌++◌, if◌then◌else◌, length, All, arith, ltb, leb, ◌==◌, ◌⊎◌, inl, inr, Bool-cases, ap,
  ◌≢◌,
}
use ssu_operating_system.Base.Int.{ℤ}
use ssu_operating_system.Top.Sort.{SortMode, cpu_mode, mem_mode, pid_mode, time_mode}

pub data Key : Type 0 where
  left right up down enter space shift_r shift_p shift_m shift_n shift_t shift_e k : Key
  other quit : Key

pub record Screen : Type 0 where
  pub row : ℕ
  pub col : ℕ
  pub proc_cnt : ℕ
  pub sort_mode : SortMode
  pub byte_unit : ℕ
  pub reverse_mode : Bool
  pub kill_mode : Bool
  pub print : Bool
  pub d_option : Bool
  pub n_option : Bool
  pub update_time : ℕ
  pub update_period : ℕ
  pub before : ℕ
  pub signals : List ℤ  -- the process numbers given to `kill`, the last first

pub record Event : Type 0 where
  pub key : Key
  pub now : ℕ
  pub found : ℕ
  pub input : ℤ

-- `switch (ch)`.
pub press : Screen → Key → Screen
press s left = record s { col = if s.col == 0 then 0 else s.col - 1; print = true }
press s right = record s { col = s.col + 1; print = true }
press s up = record s { row = if s.row == 0 then 0 else s.row - 1; print = true }
press s down = record s {
  row = if ltb s.proc_cnt (s.row + 1) then s.proc_cnt else s.row + 1;
  print = true;
}
press s enter = record s { print = true }
press s space = record s { print = true }
press s shift_r = record s {
  print = true;
  reverse_mode = if not s.reverse_mode then true else false;
}
press s shift_p = record s { print = true; sort_mode = cpu_mode }
press s shift_m = record s { print = true; sort_mode = mem_mode }
press s shift_n = record s { print = true; sort_mode = pid_mode }
press s shift_t = record s { print = true; sort_mode = time_mode }
press s shift_e = record s {
  print = true;
  byte_unit = if ltb 6 (s.byte_unit + 1) then 1 else s.byte_unit + 1;
}
press s k = record s { print = true; kill_mode = true }
press s other = s
press s quit = s

-- `if (!dOption) updateTime = 3;`
pub set_period : Screen → Screen
set_period s = if not s.d_option then record s { update_time = 3 } else s

-- `print || now - before >= updateTime`, on 64 bits.
pub is_due : Screen → ℕ → Bool
is_due s now = s.print || leb s.update_time ((now + 2 ^ 64 - s.before) % 2 ^ 64)

abbrev pub is_immediate : Key → Bool
is_immediate enter = true
is_immediate space = true
is_immediate _ = false

-- KillProcess.
kill_process : Screen → ℤ → Screen
kill_process s input =
    if s.kill_mode then record s { kill_mode = false; signals = input ∷ s.signals } else s

-- The branch that draws the screen again, up to `if (nOption)`.
pub refresh : Screen → Event → Screen
unfolding kill_process
refresh s ev =
    let s' =
      kill_process (if is_immediate ev.key then record s { update_time = 0 } else s) ev.input in
    record s' { proc_cnt = ev.found; before = ev.now; print = false }

-- `updatePeriod--`, and whether the loop ends.
pub count_down : Screen → Screen × Bool
count_down s =
    if s.n_option
    then (let left = (s.update_period + 2 ^ 64 - 1) % 2 ^ 64 in
        (record s { update_period = left }, left == 0))
    else (s, false)

-- One round of the loop; whether the screen was drawn, and whether the loop ends by `break`.
pub round : Screen → Event → Screen × Bool × Bool
round s ev =
    let s' = set_period (press s ev.key) in
    if is_due s' ev.now
    then (let (s'', done) = count_down (refresh s' ev) in (s'', true, done))
    else (s', false, false)

abbrev pub is_quit : Key → Bool
is_quit quit = true
is_quit _ = false

-- The first round has the key `ch = 0`; the others have the key read by `getch`, and `q` ends the
-- loop. The screen at the end, and how often it was drawn.
pub rounds : Screen → List Event → Screen × ℕ
unfolding round
rounds s [] = (s, 0)
rounds s (ev ∷ events) =
    if is_quit ev.key
    then (s, 0)
    else (let (s', drawn, done) = round s ev in
        let rest = rounds s' events in
        if done then (s', 1) else (rest.0, (if drawn then 1 else 0) + rest.1))

pub record IsValid (s : Screen) : Type 0 where
  pub unit_low : 1 ≤ s.byte_unit
  pub unit_high : s.byte_unit ≤ 6
  pub drawn : s.print ≡ false
  pub killed : s.kill_mode ≡ false

-- After the key: a signal is asked for only together with a drawing.
record IsPressed (s : Screen) : Type 0 where
  unit_low : 1 ≤ s.byte_unit
  unit_high : s.byte_unit ≤ 6
  asked : (not s.kill_mode || s.print) ≡ true

press-IsPressed : (s : Screen) (key : Key) → IsValid s → IsPressed (press s key)
unfolding press
press-IsPressed s left v = ground arith
press-IsPressed s _ v = ground arith

set_period-IsPressed : (s : Screen) → IsPressed s → IsPressed (set_period s)
unfolding set_period
set_period-IsPressed s v = ground arith

refresh-IsValid : (s : Screen) (ev : Event) → IsPressed s → IsValid (refresh s ev)
unfolding refresh
refresh-IsValid s ev v = ground arith

count_down-IsValid : (s : Screen) → IsValid s → IsValid (count_down s).0
unfolding count_down
count_down-IsValid s v = ground arith

idle-IsValid : (s : Screen) (now : ℕ) → IsPressed s → is_due s now ≡ false → IsValid s
unfolding is_due
idle-IsValid s now v h = ground arith

-- One round keeps the unit of memory among the six, and ends with nothing pressed left to be drawn
-- and no process left to be signalled.
pub round-IsValid : (s : Screen) (ev : Event) → IsValid s → IsValid (round s ev).0
unfolding round
round-IsValid s ev v =
    let pressed = set_period-IsPressed (press s ev.key) (press-IsPressed s ev.key v) in
    elim (Bool-cases (is_due (set_period (press s ev.key)) ev.now)) [
      | inl due ↦ rw due (
          count_down-IsValid (refresh (set_period (press s ev.key)) ev)
            (refresh-IsValid (set_period (press s ev.key)) ev pressed))
      | inr idle ↦ rw idle (idle-IsValid (set_period (press s ev.key)) ev.now pressed idle)
    ]

abbrev is_kill : Key → Bool
is_kill k = true
is_kill _ = false

-- The signals of the rounds, the last first.
abbrev asked_signals : List Event → List ℤ → List ℤ
asked_signals [] sent = sent
asked_signals (ev ∷ events) sent =
    asked_signals events (if is_kill ev.key then ev.input ∷ sent else sent)

pub press-signals :
    (s : Screen) (key : Key)
    → ((press s key).signals ≡ s.signals)
      × ((press s key).n_option ≡ s.n_option)
      × ((press s key).d_option ≡ s.d_option)
      × ((press s key).update_period ≡ s.update_period)
      × ((press s key).update_time ≡ s.update_time)
unfolding press
press-signals s left = ground arith
press-signals s _ = ground arith

press-kill_mode : (s : Screen) (key : Key) → IsValid s → (press s key).kill_mode ≡ is_kill key
unfolding press
press-kill_mode s left v = ground arith
press-kill_mode s _ v = ground arith

press-kill_print : (s : Screen) (key : Key) → is_kill key ≡ true → (press s key).print ≡ true
unfolding press
press-kill_print s k h = refl
press-kill_print s left h = cc
press-kill_print s _ h = cc

pub set_period-rest :
    (s : Screen)
    → ((set_period s).signals ≡ s.signals)
      × ((set_period s).kill_mode ≡ s.kill_mode)
      × ((set_period s).print ≡ s.print)
      × ((set_period s).n_option ≡ s.n_option)
      × ((set_period s).d_option ≡ s.d_option)
      × ((set_period s).update_period ≡ s.update_period)
unfolding set_period
set_period-rest s = ground arith

pub refresh-signals :
    (s : Screen) (ev : Event)
    → ((refresh s ev).signals ≡ (if s.kill_mode then ev.input ∷ s.signals else s.signals))
      × ((refresh s ev).n_option ≡ s.n_option)
      × ((refresh s ev).d_option ≡ s.d_option)
      × ((refresh s ev).update_period ≡ s.update_period)
unfolding refresh
refresh-signals s ev = ground arith

pub count_down-signals :
    (s : Screen)
    → ((count_down s).0.signals ≡ s.signals)
      × ((count_down s).0.n_option ≡ s.n_option)
      × ((count_down s).0.d_option ≡ s.d_option)
      × ((count_down s).0.update_time ≡ s.update_time)
unfolding count_down
count_down-signals s = ground arith

-- A round sends a signal exactly if its key is `k`, to the process read in that round.
round-signals :
    (s : Screen) (ev : Event)
    → IsValid s
    → (round s ev).0.signals ≡ (if is_kill ev.key then ev.input ∷ s.signals else s.signals)
unfolding round is_due
round-signals s ev v = ground (
  arith,
  press-signals s ev.key,
  press-kill_mode s ev.key v,
  press-kill_print s ev.key,
  set_period-rest (press s ev.key),
  refresh-signals (set_period (press s ev.key)) ev,
  count_down-signals (refresh (set_period (press s ev.key)) ev),
)
