-- ===== src/Ps/Record.antt =====
-- AddProcessList of Assignment_2/myps.c: the record of a process from the files of its directory, and
-- GetUpTime and GetTotalMemory. What the system calls return is an argument; `none` is what C leaves
-- undefined and the end of the program by `exit(1)`.
pub mod Stat
pub mod Line
use ssu_operating_system.Base.{
  ℕ, ◌+◌, ◌-◌, ◌*◌, ◌/◌, ◌%◌, ◌^◌, Bool, true, false, not, ◌&&◌, ◌||◌, Option, none, some, List, [],
  ◌∷◌, ◌++◌, ◌>>=◌, ltb, ◌==◌, if◌then◌else◌, length,
}
use ssu_operating_system.Base.Int.{ℤ}
use ssu_operating_system.Base.Text.{Text, codes, is_digit, starts_with}
use ssu_operating_system.Input.{fgets, number}
use ssu_operating_system.Proc.Host.{to_digit, user_name}
use ssu_operating_system.Proc.Percent.{percent}
use ssu_operating_system.Proc.Token.{tokens, token_at, atoi, to_ulong, command_name}
use ssu_operating_system.Proc.Status.{MemoryRows, read_status}
use ssu_operating_system.Proc.State.{state}
use ssu_operating_system.Proc.Times.{StartFormat, start_text, time_text}
use ssu_operating_system.Proc.Command.{command}
use ssu_operating_system.Ps.Options.{Options}
use ssu_operating_system.Ps.Table.{Proc}

kib_to_kb : ℕ → ℕ
kib_to_kb kib = kib * 1024 % 2 ^ 64 / 1000

get_total_memory : Option Text → Option ℕ
unfolding to_digit kib_to_kb
get_total_memory none = none
get_total_memory (some file) = do
  ptr ← to_digit (fgets 1023 file).0
  some (kib_to_kb (number 0 ptr))

-- What is known before a process is read; the ticks of a second are not 0.
pub record Machine : Type 0 where
  pub now : ℕ
  pub uptime : ℕ
  pub hertz : ℕ
  pub total_memory : ℕ
  pub strftime : StartFormat → ℕ → Text

-- The directory of a process: whether `access` allows for it and its stat, the texts of the files that
-- open, the number and the name of its user where `stat` succeeds (and `getpwuid` knows it), and what GetTTY finds.
pub record Files : Type 0 where
  pub readable : Bool
  pub stat_readable : Bool
  pub stat : Option Text
  pub uid : ℕ
  pub owner : Option (Option Text)
  pub status : Option Text
  pub tty : Option Text
  pub cmdline : Option Text

-- The numbers of /proc/pid/stat.
pub record Numbers : Type 0 where
  pub pid : ℕ
  pub ppid : ℕ
  pub utime : ℕ
  pub stime : ℕ
  pub start_ticks : ℕ
  pub priority : ℤ
  pub nice : ℤ
  pub sid : ℤ
  pub threads : ℤ
  pub tpgid : ℤ

pub numbers : List Text → Option Numbers
numbers ts = do
  pid ← atoi (token_at ts 0)
  ppid ← atoi (token_at ts 3)
  utime ← atoi (token_at ts 13)
  stime ← atoi (token_at ts 14)
  start_ticks ← atoi (token_at ts 21)
  priority ← atoi (token_at ts 17)
  nice ← atoi (token_at ts 18)
  sid ← atoi (token_at ts 5)
  threads ← atoi (token_at ts 19)
  tpgid ← atoi (token_at ts 7)
  some (record {
    pid = to_ulong pid;
    ppid = to_ulong ppid;
    utime = to_ulong utime;
    stime = to_ulong stime;
    start_ticks = to_ulong start_ticks;
    priority = priority;
    nice = nice;
    sid = sid;
    threads = threads;
    tpgid = tpgid;
  })

abbrev pub total_time : Numbers → ℕ
total_time n = (n.utime + n.stime) % 2 ^ 64

-- `%CPU` over the life of the process, in whole seconds.
pub cpu_percent : Machine → Numbers → ℕ
cpu_percent m n =
    percent (total_time n / m.hertz) ((m.uptime + 2 ^ 64 - n.start_ticks / m.hertz) % 2 ^ 64)

-- `proc.time` has the hour with e, and without any of a, u and x.
abbrev pub with_hour : Options → Bool
with_hour o = o.e || (not o.a && (not o.u && not o.x))

-- The record, once all files are read; its `stat` has 8 bytes, and its `command` 1024.
pub make_proc :
    Machine → Options → List Text → Numbers → ℕ → Text → MemoryRows → Text → Text → Option Proc
unfolding cpu_percent
make_proc m o ts n uid user mem tty cmdline = do
  cmd ← command_name (token_at ts 1)
  let text = command cmdline cmd in
      let marked = state (token_at ts 2) n.nice mem.vm_lck n.sid n.pid n.threads n.tpgid in
      if ltb (length marked) 8 && ltb (length text) 1024
      then some (record {
        pid = n.pid;
        uid = uid;
        ppid = n.ppid;
        user = user;
        cpu = cpu_percent m n;
        mem = if mem.has then percent mem.rss m.total_memory else 0;
        vsz = mem.vsz;
        rss = mem.rss;
        shr = mem.shr;
        priority = n.priority;
        nice = n.nice;
        tty = tty;
        stat = marked;
        start = start_text m.strftime m.now m.uptime n.start_ticks m.hertz;
        time = time_text (with_hour o) (total_time n / m.hertz);
        cmd = cmd;
        command = text;
      })
      else none

-- The rest of AddProcessList from a point on where a file may not open: `some none` is a return that
-- adds nothing.
pub from_cmdline :
    Machine
    → Options
    → List Text
    → Numbers
    → ℕ
    → Text
    → MemoryRows
    → Text
    → Option Text
    → Option (Option Proc)
unfolding make_proc
from_cmdline m o ts n uid user mem tty none = some none
from_cmdline m o ts n uid user mem tty (some cmdline) = do
  proc ← make_proc m o ts n uid user mem tty cmdline
  some (some proc)

pub from_status :
    Machine → Options → Files → List Text → Numbers → Text → Option Text → Option (Option Proc)
unfolding from_cmdline
from_status m o f ts n user none = some none
from_status m o f ts n user (some status) = do
  tty ← f.tty
  from_cmdline m o ts n f.uid user (read_status status) tty f.cmdline

pub from_owner :
    Machine → Options → Files → List Text → Numbers → Option (Option Text) → Option (Option Proc)
unfolding user_name from_status
from_owner m o f ts n none = some none
from_owner m o f ts n (some none) = none
from_owner m o f ts n (some (some name)) = do
  user ← user_name name
  from_status m o f ts n user f.status

pub from_stat : Machine → Options → Files → Option Text → Option (Option Proc)
unfolding numbers from_owner
from_stat m o f none = some none
from_stat m o f (some text) = do ts ← tokens 22 text; n ← numbers ts; from_owner m o f ts n f.owner

pub add_process : Machine → Options → Files → Option (Option Proc)
unfolding from_stat
add_process m o f =
    if not f.readable
    then some none
    else if not f.stat_readable
    then some none
    else from_stat m o f f.stat

-- `procList[procCnt++]`, with 4096 entries, for one directory after another.
add_processes : Machine → Options → ℕ → List Files → Option (List Proc)
unfolding add_process
add_processes m o cnt [] = some []
add_processes m o cnt (f ∷ fs) =
    let next = add_processes m o (cnt + 1) fs in
    let rest = add_processes m o cnt fs in
    do
      added ← add_process m o f
      elim added [
        | none ↦ rest
        | some p ↦ if ltb cnt 4096 then (do ps ← next; some (p ∷ ps)) else none
      ]
