-- ===== src/Top/Record.antt =====
-- AddProcessList and SearchProcess of Assignment_2/mytop.c: the records of the processes, with the share
-- of the processor since the last time. What the system calls return is an argument; `none` is what C
-- leaves undefined.
pub mod Interval
use ssu_operating_system.Base.{
  ℕ, ◌+◌, ◌-◌, ◌*◌, ◌/◌, ◌%◌, ◌^◌, Bool, true, false, not, ◌&&◌, Option, none, some, List, [], ◌∷◌,
  ◌>>=◌, ltb, ◌==◌, if◌then◌else◌, length,
}
use ssu_operating_system.Base.Int.{ℤ}
use ssu_operating_system.Base.Text.{Text, codes, is_digit, starts_with, all_digits}
use ssu_operating_system.Input.{Cursor, reads, read_to, number}
use ssu_operating_system.Proc.Host.{user_name}
use ssu_operating_system.Proc.Percent.{percent}
use ssu_operating_system.Proc.Token.{tokens, token_at, atoi, to_ulong, command_name}
use ssu_operating_system.Proc.Status.{at_digit, MemoryRows, row_value, no_memory}
use ssu_operating_system.Proc.Times.{StartFormat, start_text, time_plus}
use ssu_operating_system.Proc.Command.{command}
use ssu_operating_system.Top.Sort.{MyProc}

-- What is known before the processes are read: `now` and `before` of the refresh loop, `time(NULL)`,
-- and the rest; the ticks of a second are not 0.
pub record Machine : Type 0 where
  pub now : ℕ
  pub before : ℕ
  pub time : ℕ
  pub uptime : ℕ
  pub hertz : ℕ
  pub total_memory : ℕ
  pub strftime : StartFormat → ℕ → Text

-- The directory of a process, as for myps, without the terminal.
pub record Files : Type 0 where
  pub readable : Bool
  pub stat_readable : Bool
  pub stat : Option Text
  pub uid : ℕ
  pub owner : Option (Option Text)
  pub status : Option Text
  pub cmdline : Option Text

pub record Numbers : Type 0 where
  pub pid : ℕ
  pub ppid : ℕ
  pub utime : ℕ
  pub stime : ℕ
  pub start_ticks : ℕ
  pub priority : ℤ
  pub nice : ℤ

unfoldable pub numbers : List Text → Option Numbers
numbers ts = do
  pid ← atoi (token_at ts 0)
  ppid ← atoi (token_at ts 3)
  utime ← atoi (token_at ts 13)
  stime ← atoi (token_at ts 14)
  start_ticks ← atoi (token_at ts 21)
  priority ← atoi (token_at ts 17)
  nice ← atoi (token_at ts 18)
  some (record {
    pid = to_ulong pid;
    ppid = to_ulong ppid;
    utime = to_ulong utime;
    stime = to_ulong stime;
    start_ticks = to_ulong start_ticks;
    priority = priority;
    nice = nice;
  })

-- A record of `procList`; `keys` are its fields that isGreater reads.
pub record TopProc : Type 0 where
  pub keys : MyProc
  pub uid : ℕ
  pub ppid : ℕ
  pub user : Text
  pub vsz : ℕ
  pub shr : ℕ
  pub priority : ℤ
  pub nice : ℤ
  pub tty : Text
  pub stat : Text
  pub start : Text
  pub time : Text
  pub cmd : Text
  pub command : Text

-- `cpuTimeTable`, of 32768 entries, by process number.
abbrev pub Table : Type 0
Table = ℕ → ℕ

abbrev pub total_time : Numbers → ℕ
total_time n = (n.utime + n.stime) % 2 ^ 64

-- `%CPU` since the last time, if the table has one, or over the life of the process.
unfoldable pub cpu_percent : Machine → Table → Numbers → ℕ
cpu_percent m table n =
    let last = table n.pid in
    if last == 0
    then percent (total_time n / m.hertz) ((m.uptime + 2 ^ 64 - n.start_ticks / m.hertz) % 2 ^ 64)
    else percent ((total_time n + 2 ^ 64 - last) % 2 ^ 64) ((m.now - m.before) * m.hertz)

-- `cpuTimeTable[proc.pid] = totalTime`.
unfoldable pub keep_time : Table → Numbers → Table
keep_time table n i = if i == n.pid then total_time n else table i

-- The rows of the memory; the shared memory is the sum of rows 24 and 25, and without a number in row
-- 25 `shr_add` has no value.
unfoldable pub read_status : Text → Option MemoryRows
read_status file =
    let c18 = read_to 18 (record { cnt = 0; buf = []; rest = reads file }) in
    let c19 = read_to 19 c18 in
    let c22 = read_to 22 c19 in
    let c24 = read_to 24 c22 in
    let c25 = read_to 25 c24 in
    if starts_with c18.buf (codes "VmSize")
    then (elim (at_digit c25.buf c25.buf) [
      | [] ↦ none
      | c ∷ cs ↦
          if is_digit c
          then some (record {
            has = true;
            vsz = row_value c18.buf;
            vm_lck = row_value c19.buf;
            rss = row_value c22.buf;
            shr = (row_value c24.buf + number 0 (c ∷ cs)) % 2 ^ 64;
          })
          else none
    ])
    else some no_memory

-- The record, once all files are read; `proc.stat` has 8 bytes, and `proc.command` 1024.
unfoldable pub make_row :
    Machine → List Text → Numbers → ℕ → Text → ℕ → MemoryRows → Text → Option TopProc
make_row m ts n uid user cpu mem cmdline = do
  cmd ← command_name (token_at ts 1)
  let text = command cmdline cmd in
      if ltb (length (token_at ts 2)) 8 && ltb (length text) 1024
      then some (record {
        keys = record {
          pid = n.pid;
          runtime = total_time n;
          cpu = cpu;
          mem = if mem.has then percent mem.rss m.total_memory else 0;
          rss = mem.rss;
        };
        uid = uid;
        ppid = n.ppid;
        user = user;
        vsz = mem.vsz;
        shr = mem.shr;
        priority = n.priority;
        nice = n.nice;
        tty = [];
        stat = token_at ts 2;
        start = start_text m.strftime m.time m.uptime n.start_ticks m.hertz;
        time = time_plus (total_time n) m.hertz;
        cmd = cmd;
        command = text;
      })
      else none

-- A return on the way adds nothing, but once the table has been set it stays so.
unfoldable pub from_status :
    Machine → Files → List Text → Numbers → Text → ℕ → Option Text → Option (Option TopProc)
unfolding read_status make_row
from_status m f ts n user cpu none = some none
from_status m f ts n user cpu (some status) = do
  mem ← read_status status
  elim f.cmdline [
    | none ↦ some none
    | some cmdline ↦ do row ← make_row m ts n f.uid user cpu mem cmdline; some (some row)
  ]

unfoldable pub from_owner :
    Machine
    → Table
    → Files
    → List Text
    → Numbers
    → Option (Option Text)
    → Option (Table × Option TopProc)
unfolding cpu_percent keep_time from_status
from_owner m table f ts n none = some (table, none)
from_owner m table f ts n (some none) = none
from_owner m table f ts n (some (some name)) = do
  user ← user_name name
  let row = from_status m f ts n user (cpu_percent m table n) f.status in
      if ltb n.pid 32_768 then (do r ← row; some (keep_time table n, r)) else none

unfoldable pub from_stat : Machine → Table → Files → Option Text → Option (Table × Option TopProc)
unfolding numbers from_owner
from_stat m table f none = some (table, none)
from_stat m table f (some text) = do
  ts ← tokens 22 text
  n ← numbers ts
  from_owner m table f ts n f.owner

unfoldable pub add_process : Machine → Table → Files → Option (Table × Option TopProc)
unfolding from_stat
add_process m table f =
    if not f.readable
    then some (table, none)
    else if not f.stat_readable
    then some (table, none)
    else from_stat m table f f.stat

-- An entry of /proc that `stat` reads.
pub record Entry : Type 0 where
  pub is_dir : Bool
  pub name : Text
  pub files : Files

-- `procList[procCnt++]`, with 4096 entries, before the processes that are read next.
after_row :
    ℕ
    → Option TopProc
    → Option (Table × List TopProc)
    → Option (Table × List TopProc)
    → Option (Table × List TopProc)
after_row cnt none rest next = rest
after_row cnt (some r) rest next =
    if ltb cnt 4096 then (do (table, rows) ← next; some (table, r ∷ rows)) else none

-- SearchProcess, with so many records made: the table and the records that follow.
pub search_process : Machine → Table → ℕ → List Entry → Option (Table × List TopProc)
unfolding add_process after_row
search_process m table cnt [] = some (table, [])
search_process m table cnt (d ∷ entries) =
    let skipped = search_process m table cnt entries in
    if d.is_dir && all_digits d.name
    then (do
      (table', row) ← add_process m table d.files
      after_row cnt row (search_process m table' cnt entries)
          (search_process m table' (cnt + 1) entries))
    else skipped
