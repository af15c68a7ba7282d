-- ===== src/Ps/Record/Line.antt =====
-- What AddProcessList of Assignment_2/myps.c makes of a process whose files are as the kernel writes
-- them.
use ssu_operating_system.Base.{
  ℕ, ◌+◌, ◌-◌, ◌/◌, ◌%◌, ◌^◌, ◌≤◌, ◌<◌, ◌≡◌, refl, true, ◌&&◌, some, List, [], ◌∷◌, ◌++◌, ltb,
  if◌then◌else◌, length, All, arith,
}
use ssu_operating_system.Base.Text.{Text, codes, starts_with}
use ssu_operating_system.Input.{reads}
use ssu_operating_system.Proc.Host.{user_name-fits}
use ssu_operating_system.Proc.Percent.{percent}
use ssu_operating_system.Proc.Token.{
  line_of, tokens, tokens-line_of, token_at, command_name, command_name_lem,
}
use ssu_operating_system.Proc.Status.{MemoryRows, memory_of, read_status-memory_of}
use ssu_operating_system.Proc.State.{state, state-has}
use ssu_operating_system.Proc.Times.{by_age, start_text-old, time_text}
use ssu_operating_system.Proc.Command.{IsArgument, cmdline_of, joined, joined-some, command-joined}
use ssu_operating_system.Ps.Options.{Options}
use ssu_operating_system.Ps.Table.{Proc}
use ssu_operating_system.Ps.Record.Stat.{
  Stat, stat_tokens, IsLine, IsLine-tokens, numbers_of, numbers-stat_tokens,
}
use ssu_operating_system.Ps.Record.{
  Machine, total_time, cpu_percent, with_hour, make_proc, from_cmdline, from_status, from_owner,
  from_stat, add_process,
}

name-at : (s : Stat) → IsLine s → command_name (token_at (stat_tokens s) 1) ≡ some s.name
name-at s h = command_name_lem s.name h.name

total_of : (s : Stat) → IsLine s → total_time (numbers_of s) ≡ s.utime + s.stime
total_of s h = omega (arith, h.utime, h.stime)

wrapped : (a b : ℕ) → b ≤ a → a < 2 ^ 63 → (a + 2 ^ 64 - b) % 2 ^ 64 ≡ a - b
wrapped a b l k = omega arith

cpu_percent-of :
    (m : Machine) (s : Stat)
    → IsLine s
    → s.start_ticks / m.hertz ≤ m.uptime
    → m.uptime < 2 ^ 63
    → cpu_percent m (numbers_of s)
      ≡ percent ((s.utime + s.stime) / m.hertz) (m.uptime - s.start_ticks / m.hertz)
unfolding cpu_percent
cpu_percent-of m s h l k = rw (total_of s h, wrapped m.uptime (s.start_ticks / m.hertz) l k) refl

-- The record that should be made.
abbrev pub proc_of : Machine → Options → Stat → ℕ → Text → MemoryRows → Text → List Text → Proc
proc_of m o s uid user mem tty args =
    let age = m.uptime - s.start_ticks / m.hertz in
    record {
      pid = s.pid;
      uid = uid;
      ppid = s.ppid;
      user = if starts_with user (codes "systemd-") then codes "systemd+" else user;
      cpu = percent ((s.utime + s.stime) / m.hertz) age;
      mem = if mem.has then percent mem.rss m.total_memory else 0;
      vsz = mem.vsz;
      rss = mem.rss;
      shr = mem.shr;
      priority = s.priority;
      nice = s.nice;
      tty = tty;
      stat = state (s.letter ∷ []) s.nice mem.vm_lck s.sid s.pid s.threads s.tpgid;
      start = by_age m.strftime age (m.now - age);
      time = time_text (with_hour o) ((s.utime + s.stime) / m.hertz);
      cmd = s.name;
      command = joined args;
    }

make_proc-of :
    (m : Machine) (o : Options) (s : Stat) (uid : ℕ) (user tty arg : Text) (args : List Text)
    (mem : MemoryRows)
    → IsLine s
    → s.start_ticks / m.hertz ≤ m.uptime
    → m.uptime ≤ m.now
    → m.now < 2 ^ 63
    → IsArgument arg
    → All IsArgument args
    → length (joined (arg ∷ args)) < 1024
    → make_proc m o
        (stat_tokens s)
        (numbers_of s)
        uid
        (if starts_with user (codes "systemd-") then codes "systemd+" else user)
        mem
        tty
        (cmdline_of (arg ∷ args))
      ≡ some (proc_of m o s uid user mem tty (arg ∷ args))
unfolding make_proc
make_proc-of m o s uid user tty arg args mem h l p q a as' short =
    let written = (command-joined arg args s.name [] a.1 as' (joined-some arg args a.0)).0 in
    let marked : Text = state (s.letter ∷ []) s.nice mem.vm_lck s.sid s.pid s.threads s.tpgid in
    let marks = state-has s.letter s.nice mem.vm_lck s.sid s.pid s.threads s.tpgid h.plain in
    let fits : (ltb (length marked) 8 && ltb (length (joined (arg ∷ args))) 1024) ≡ true =
      ground (arith, marks.6, short) in
    rw
      (
        name-at s h,
        written,
        fits,
        cpu_percent-of m s h l (omega arith),
        total_of s h,
        start_text-old m.strftime m.now m.uptime s.start_ticks m.hertz p q l,
      )
      refl

-- AddProcessList of myps adds, for a process whose files open and are as the kernel writes them, the
-- record with the numbers, times, percentages and texts that belong to it. The numbers of its stat
-- fit an int, its name is short and without white space, the name of its user is shorter than 32
-- bytes, no argument is empty, the command has room in 1024 bytes, and it started no later than
-- /proc/uptime was read.
pub add_process-proc_of :
    (m : Machine) (o : Options) (s : Stat) (uid : ℕ) (user status tty arg : Text) (args : List Text)
    (behind : Text)
    → IsLine s
    → s.start_ticks / m.hertz ≤ m.uptime
    → m.uptime ≤ m.now
    → m.now < 2 ^ 63
    → length user < 32
    → IsArgument arg
    → All IsArgument args
    → length (joined (arg ∷ args)) < 1024
    → add_process m o (record {
      readable = true;
      stat_readable = true;
      uid = uid;
      stat = some (line_of (stat_tokens s) ++ behind);
      owner = some (some user);
      status = some status;
      tty = some tty;
      cmdline = some (cmdline_of (arg ∷ args));
    })
      ≡ some (some (proc_of m o s uid user (memory_of (reads status)) tty (arg ∷ args)))
unfolding add_process from_stat from_owner from_status from_cmdline
add_process-proc_of m o s uid user status tty arg args behind h l p q u a as' short =
    let read : tokens 22 (line_of (stat_tokens s) ++ behind) ≡ some (stat_tokens s) =
      tokens-line_of (stat_tokens s) behind (IsLine-tokens s h) in
    rw
      (
        read,
        numbers-stat_tokens s h,
        user_name-fits user u,
        read_status-memory_of status,
        make_proc-of m o s uid user tty arg args (memory_of (reads status)) h l p q a as' short,
      )
      refl
