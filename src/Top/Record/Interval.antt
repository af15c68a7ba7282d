-- ===== src/Top/Record/Interval.antt =====
-- The share of the processor that Assignment_2/mytop.c gives a process from its second reading on, and
-- what a reading leaves in `cpuTimeTable`.
use ssu_operating_system.Base.{
  ◌/◌, ◌||◌, ltb, subst, ℕ, ◌+◌, ◌-◌, ◌*◌, ◌%◌, ◌^◌, ◌≤◌, ◌<◌, ◌≡◌, refl, ◌≢◌, ◌∙◌, ap, Bool, true,
  false, not, Option, none, some, List, some_eq, bind-some, if-some, ltb→lt, ◌>>=◌, ◌==◌,
  if◌then◌else◌, arith,
}
use ssu_operating_system.Base.Text.{Text}
use ssu_operating_system.Proc.Host.{user_name}
use ssu_operating_system.Proc.Percent.{percent, percent-nearest}
use ssu_operating_system.Proc.Token.{tokens, token_at, command_name}
use ssu_operating_system.Proc.Status.{MemoryRows}
use ssu_operating_system.Top.Record.{
  Machine, Files, Numbers, numbers, TopProc, Table, total_time, cpu_percent, keep_time, read_status,
  make_row, from_status, from_owner, from_stat, add_process,
}

keep_time_self : (table : Table) (n : Numbers) → keep_time table n n.pid ≡ total_time n
unfolding keep_time
keep_time_self table n = ground arith

keep_time_other : (table : Table) (n : Numbers) (i : ℕ) → i ≢ n.pid → keep_time table n i ≡ table i
unfolding keep_time
keep_time_other table n i h = ground (arith, h)

difference : (a b : ℕ) → b ≤ a → a < 2 ^ 64 → (a + 2 ^ 64 - b) % 2 ^ 64 ≡ a - b
difference a b l h = omega arith

-- Where the table has a time already.
cpu_percent-since :
    (m : Machine) (table : Table) (n : Numbers) (last : ℕ)
    → table n.pid ≡ last
    → 0 < last
    → last ≤ total_time n
    → cpu_percent m table n ≡ percent (total_time n - last) ((m.now - m.before) * m.hertz)
unfolding cpu_percent
cpu_percent-since m table n last e u l =
    let known : (last == 0) ≡ false = ground (arith, u) in
    rw (e, known, difference (total_time n) last l (omega arith)) refl

-- What is read of a process, and what is made of it.
abbrev IsMade : Machine → Table → Table → TopProc → Type 0
IsMade m table table' r =
    (n : Numbers) × (n.pid < 32_768)
    × (keep_time table n ≡ table')
    × (r.keys.pid ≡ n.pid)
    × (r.keys.runtime ≡ total_time n)
    × (r.keys.cpu ≡ cpu_percent m table n)

abbrev HasKeys : TopProc → Numbers → ℕ → Type 0
HasKeys r n cpu = (r.keys.pid ≡ n.pid) × (r.keys.runtime ≡ total_time n) × (r.keys.cpu ≡ cpu)

make_row-keys :
    (m : Machine) (ts : List Text) (n : Numbers) (uid : ℕ) (user : Text) (cpu : ℕ)
    (mem : MemoryRows) (cmdline : Text) (r : TopProc)
    → make_row m ts n uid user cpu mem cmdline ≡ some r
    → HasKeys r n cpu
unfolding make_row
make_row-keys m ts n uid user cpu mem cmdline r e =
    let (cmd, named, made) = bind-some (command_name (token_at ts 1)) _ e in
    let (fits, same) = if-some _ made in
    subst (λ (q : TopProc). HasKeys q n cpu) (some_eq same) (refl, refl, refl)

from_status-keys :
    (m : Machine) (f : Files) (ts : List Text) (n : Numbers) (user : Text) (cpu : ℕ)
    (status : Option Text) (r : TopProc)
    → from_status m f ts n user cpu status ≡ some (some r)
    → HasKeys r n cpu
unfolding from_status
from_status-keys m f ts n user cpu none r e = cc
from_status-keys m f ts n user cpu (some status) r e =
    let (mem, read, made) = bind-some (read_status status) _ e in with_cmdline mem f.cmdline made
  where
    with_cmdline :
        (mem : MemoryRows) (c : Option Text)
        → (elim c [
          | none ↦ some none
          | some cmdline ↦ make_row m ts n f.uid user cpu mem cmdline >>= (λ row. some (some row))
        ])
          ≡ some (some r)
        → HasKeys r n cpu
    with_cmdline mem none q = cc
    with_cmdline mem (some cmdline) q =
        let (r', row, same) = bind-some (make_row m ts n f.uid user cpu mem cmdline) _ q in
        make_row-keys m ts n f.uid user cpu mem cmdline r (row ∙ some_eq same)

from_owner-IsMade :
    (m : Machine) (table table' : Table) (f : Files) (ts : List Text) (n : Numbers)
    (owner : Option (Option Text)) (r : TopProc)
    → from_owner m table f ts n owner ≡ some (table', some r)
    → IsMade m table table' r
unfolding from_owner
from_owner-IsMade m table table' f ts n none r e = cc
from_owner-IsMade m table table' f ts n (some none) r e = cc
from_owner-IsMade m table table' f ts n (some (some name)) r e =
    let (user, shown, made) = bind-some (user_name name) _ e in
    let (inside, rest) = if-some _ made in
    let (row, read, same) =
      bind-some (from_status m f ts n user (cpu_percent m table n) f.status) _ rest in
    let both = some_eq same in
    let (pid, runtime, cpu) =
      from_status-keys m f ts n user (cpu_percent m table n) f.status r
        (read ∙ ap (λ p. some p.1) both) in
    (n, ltb→lt n.pid 32_768 inside, ap (λ p. p.0) both, pid, runtime, cpu)

from_stat-IsMade :
    (m : Machine) (table table' : Table) (f : Files) (stat : Option Text) (r : TopProc)
    → from_stat m table f stat ≡ some (table', some r)
    → IsMade m table table' r
unfolding from_stat
from_stat-IsMade m table table' f none r e = cc
from_stat-IsMade m table table' f (some text) r e =
    let (ts, split, made) = bind-some (tokens 22 text) _ e in
    let (n, read, rest) = bind-some (numbers ts) _ made in
    from_owner-IsMade m table table' f ts n f.owner r rest

none-some : {A : Type 0} {a : A} → none ≢ some a
none-some e = cc

add_process-IsMade :
    (m : Machine) (table table' : Table) (f : Files) (r : TopProc)
    → add_process m table f ≡ some (table', some r)
    → IsMade m table table' r
unfolding add_process
add_process-IsMade m table table' f r e = readable f.readable f.stat_readable e
  where
    readable :
        (a b : Bool)
        → (if not a
            then some (table, none)
            else if not b
            then some (table, none)
            else from_stat m table f f.stat)
          ≡ some (table', some r)
        → IsMade m table table' r
    readable false b q = absurd (none-some (ap (λ p. p.1) (some_eq q)))
    readable true false q = absurd (none-some (ap (λ p. p.1) (some_eq q)))
    readable true true q = from_stat-IsMade m table table' f f.stat r q

-- What a record says of its reading.
abbrev pub IsKept : Table → Table → TopProc → Type 0
IsKept table table' r =
    (r.keys.pid < 32_768)
    × (table' r.keys.pid ≡ r.keys.runtime)
    × ((i : ℕ) → i ≢ r.keys.pid → table' i ≡ table i)

-- A process that is added to the list has its time in the table, at its number, which is one of the
-- table, and no other entry is changed.
pub add_process-IsKept :
    (m : Machine) (table table' : Table) (f : Files) (r : TopProc)
    → add_process m table f ≡ some (table', some r)
    → IsKept table table' r
add_process-IsKept m table table' f r e =
    let (n, inside, left, pid, runtime, cpu) = add_process-IsMade m table table' f r e in
    rw (pid, runtime, ← left) (inside, keep_time_self table n, keep_time_other table n)

-- A process that mytop adds to the list twice is shown at the second time with its share of the time
-- that has passed since the first, as the nearest number of tenths of a percent, or with 0 where it
-- is more than all of it or no time has passed. The refresh before the second one was the first, no
-- other process read in between changed its entry of the table, and it had used some time before,
-- and no more than at the second time.
pub add_process-interval :
    (m1 m2 : Machine) (t0 t1 t2 t3 : Table) (f1 f2 : Files) (r1 r2 : TopProc)
    → add_process m1 t0 f1 ≡ some (t1, some r1)
    → add_process m2 t2 f2 ≡ some (t3, some r2)
    → m2.before ≡ m1.now
    → t2 r1.keys.pid ≡ t1 r1.keys.pid
    → r2.keys.pid ≡ r1.keys.pid
    → 0 < r1.keys.runtime
    → r1.keys.runtime ≤ r2.keys.runtime
    → let used = r2.keys.runtime - r1.keys.runtime in
      let passed = (m2.now - m1.now) * m2.hertz in
      r2.keys.cpu ≡ (
        if passed == 0 || ltb passed used
        then 0
        else (2 * (used * 100 * 10) + passed) / (2 * passed))
add_process-interval m1 m2 t0 t1 t2 t3 f1 f2 r1 r2 e1 e2 before same again some_time more =
    let (in_table, first, others) = add_process-IsKept m1 t0 t1 f1 r1 e1 in
    let (n, inside, left, pid, runtime, cpu) = add_process-IsMade m2 t2 t3 f2 r2 e2 in
    let last : t2 n.pid ≡ r1.keys.runtime = rw (← pid, again) (same ∙ first) in
    cpu
    ∙ cpu_percent-since m2 t2 n r1.keys.runtime last some_time (rw (← runtime) more)
    ∙ rw (before, ← runtime)
        ((percent-nearest (r2.keys.runtime - r1.keys.runtime) ((m2.now - m1.now) * m2.hertz)).0)
