-- ===== src/Top/Keys/Periods.antt =====
-- The options `-n` and `-d` of Assignment_2/mytop.c over whole runs of the loop.
use ssu_operating_system.Base.{
  ℕ, ◌+◌, ◌^◌, ◌<◌, ◌≤◌, ◌≡◌, refl, Bool, true, false, ◌&&◌, List, [], ◌∷◌, if◌then◌else◌, length,
  All, arith, ◌==◌,
}
use Prim.Native.Nat.{min}
use ssu_operating_system.Top.Keys.{
  Key, left, other, quit, Screen, Event, press, set_period, is_due, refresh, count_down, round,
  rounds, is_quit, is_immediate, press-signals, set_period-rest, refresh-signals,
  count_down-signals,
}

-- A key that has a case in `switch (ch)`.
abbrev draws : Key → Bool
draws other = false
draws quit = false
draws _ = true

press-print : (s : Screen) (key : Key) → draws key ≡ true → (press s key).print ≡ true
unfolding press
press-print s left h = refl
press-print s other h = cc
press-print s quit h = cc
press-print s _ h = refl

count_down-period :
    (s : Screen)
    → s.n_option ≡ true
    → 0 < s.update_period
    → s.update_period < 2 ^ 64
    → ((count_down s).0.update_period + 1 ≡ s.update_period)
      × ((count_down s).1 ≡ ((count_down s).0.update_period == 0))
unfolding count_down
count_down-period s n h l = ground arith

-- With `-n` a round that draws takes one off the count, and ends the loop at 0; another does not.
record IsCounted (s : Screen) (out : Screen × Bool × Bool) : Type 0 where
  counting : out.0.n_option ≡ true
  count : out.0.update_period + (if out.1 then 1 else 0) ≡ s.update_period
  done : out.2 ≡ (out.1 && (out.0.update_period == 0))

round-IsCounted :
    (s : Screen) (ev : Event)
    → s.n_option ≡ true
    → 0 < s.update_period
    → s.update_period < 2 ^ 64
    → IsCounted s (round s ev)
unfolding round
round-IsCounted s ev n h l = ground (
  arith,
  press-signals s ev.key,
  set_period-rest (press s ev.key),
  refresh-signals (set_period (press s ev.key)) ev,
  count_down-signals (refresh (set_period (press s ev.key)) ev),
  count_down-period (refresh (set_period (press s ev.key)) ev),
)

-- With `-n` and a count that is not 0, the loop draws the screen at most so often.
rounds-le-period :
    (s : Screen) (events : List Event)
    → s.n_option ≡ true
    → 0 < s.update_period
    → s.update_period < 2 ^ 64
    → (rounds s events).1 ≤ s.update_period
unfolding rounds
rounds-le-period s [] n h l = omega arith
rounds-le-period s (ev ∷ events) n h l =
    ground (arith, round-IsCounted s ev n h l, rounds-le-period (round s ev).0 events)

round-draws : (s : Screen) (ev : Event) → draws ev.key ≡ true → (round s ev).1 ≡ true
unfolding round is_due
round-draws s ev h = ground (arith, press-print s ev.key h, set_period-rest (press s ev.key))

-- With `-n` and a count that is not 0, if each key that is read has a case, the loop draws the
-- screen once for each key until the count is used up.
rounds-min :
    (s : Screen) (events : List Event)
    → s.n_option ≡ true
    → 0 < s.update_period
    → s.update_period < 2 ^ 64
    → All (λ ev. draws ev.key ≡ true) events
    → (rounds s events).1 ≡ min (length events) s.update_period
unfolding rounds
rounds-min s [] n h l k = omega arith
rounds-min s (ev ∷ events) n h l (d, k) = ground (
  arith,
  round-IsCounted s ev n h l,
  round-draws s ev d,
  not_quit ev.key d,
  rounds-min (round s ev).0 events,
)
  where
    not_quit : (key : Key) → draws key ≡ true → is_quit key ≡ false
    not_quit quit h = cc
    not_quit _ h = refl

-- With `-d`, and the period at 0 as ENTER and the space bar leave it, a round draws whatever the
-- time, and leaves the period at 0.
record IsStuck (s : Screen) : Type 0 where
  delayed : s.d_option ≡ true
  at_once : s.update_time ≡ 0
  endless : s.n_option ≡ false

set_period-IsStuck : (s : Screen) → s.d_option ≡ true → (set_period s).update_time ≡ s.update_time
unfolding set_period
set_period-IsStuck s h = ground arith

refresh-at_once : (s : Screen) (ev : Event) → s.update_time ≡ 0 → (refresh s ev).update_time ≡ 0
unfolding refresh
refresh-at_once s ev h = ground arith

round-IsStuck :
    (s : Screen) (ev : Event)
    → IsStuck s
    → IsStuck (round s ev).0 × ((round s ev).1 ≡ true) × ((round s ev).2 ≡ false)
unfolding round is_due count_down
round-IsStuck s ev v = ground (
  arith,
  press-signals s ev.key,
  set_period-rest (press s ev.key),
  set_period-IsStuck (press s ev.key),
  refresh-signals (set_period (press s ev.key)) ev,
  refresh-at_once (set_period (press s ev.key)) ev,
)

rounds-IsStuck :
    (s : Screen) (events : List Event)
    → IsStuck s
    → All (λ ev. is_quit ev.key ≡ false) events
    → (rounds s events).1 ≡ length events
unfolding rounds
rounds-IsStuck s [] v k = refl
rounds-IsStuck s (ev ∷ events) v (q, k) =
    ground (arith, round-IsStuck s ev v, rounds-IsStuck (round s ev).0 events)

immediate_draws : (key : Key) → is_immediate key ≡ true → draws key ≡ true
immediate_draws other h = cc
immediate_draws quit h = cc
immediate_draws _ h = refl

due : (s : Screen) (now : ℕ) → s.print ≡ true → is_due s now ≡ true
unfolding is_due
due s now h = ground arith

refresh-immediate :
    (s : Screen) (ev : Event) → is_immediate ev.key ≡ true → (refresh s ev).update_time ≡ 0
unfolding refresh
refresh-immediate s ev h = ground arith

round-immediate :
    (s : Screen) (ev : Event)
    → s.d_option ≡ true
    → s.n_option ≡ false
    → is_immediate ev.key ≡ true
    → IsStuck (round s ev).0
unfolding round count_down
round-immediate s ev d n h = ground (
  arith,
  press-signals s ev.key,
  set_period-rest (press s ev.key),
  press-print s ev.key (immediate_draws ev.key h),
  due (set_period (press s ev.key)) ev.now,
  refresh-signals (set_period (press s ev.key)) ev,
  refresh-immediate (set_period (press s ev.key)) ev h,
)

-- With `-d sec` and no `-n`, once ENTER or the space bar has been pressed, every later round draws
-- the screen, however little time has passed: the period given is lost.
pub rounds-after_immediate :
    (s : Screen) (ev : Event) (events : List Event)
    → s.d_option ≡ true
    → s.n_option ≡ false
    → is_immediate ev.key ≡ true
    → All (λ e. is_quit e.key ≡ false) events
    → (rounds (round s ev).0 events).1 ≡ length events
rounds-after_immediate s ev events d n h k =
    rounds-IsStuck (round s ev).0 events (round-immediate s ev d n h) k
