-- ===== src/Top/Tests.antt =====
-- Concrete runs of the models of Assignment_2/mytop.c.
use mathlib.Core.List.{Perm}
use ssu_operating_system.Base.{
  ℕ, if◌then◌else◌, ◌==◌, replicate, ◌++◌, All, ◌↔◌, none, some, ◌<◌, ◌≡◌, refl, true, false, List,
  [], ◌∷◌, arith,
}
use ssu_operating_system.Base.Int.{ℤ, pos}
use ssu_operating_system.Base.Text.{Text, codes, skip, word, after_word, decimal}
use ssu_operating_system.Proc.Percent.{percent, round_double, scale}
use ssu_operating_system.Top.Record.{
  Machine, Files, Numbers, TopProc, cpu_percent, keep_time, add_process, from_stat, from_owner,
  from_status, make_row, read_status, numbers,
}
use ssu_operating_system.Proc.Token.{tokens, atoi, to_ulong, command_name, but_last}
use ssu_operating_system.Proc.Command.{read_command, command}
use ssu_operating_system.Proc.Times.{start_text, time_plus, two_digits}
use ssu_operating_system.Proc.Status.{at_digit}
use ssu_operating_system.Proc.Host.{user_name, to_digit}
use ssu_operating_system.Input.{fgets, reads_from, reads, read_to, read_rows, advance, number}
use ssu_operating_system.Top.Record.Interval.{add_process-interval, IsKept, add_process-IsKept}
use ssu_operating_system.Top.Screen.{
  Draw, column_width, print_columns, draw_titles, draw_cells, draw_rows, draw_cmd, visible_cmd,
  draw_x, longest, cell,
}
use ssu_operating_system.Top.Screen.Apart.{IsApart, IsListed, print_columns-IsApart}
use ssu_operating_system.Top.Screen.Narrow.{print_columns-eq-none}
use ssu_operating_system.Top.Summary.{
  Before, up_text, count_tasks, cpu_line, row_number, read_meminfo, mem_info,
}
use ssu_operating_system.Top.Summary.Ticks.{stat_file}
use ssu_operating_system.Top.Summary.Interval.{add_each, cpu_line-add_each}
use ssu_operating_system.Top.Summary.Balance.{
  count_tasks-Counted, IsBalanced, read_meminfo-IsBalanced,
}
use ssu_operating_system.Top.Bubble.{IsSorted}
use ssu_operating_system.Top.Sort.{MyProc, cpu_mode, mem_mode, sort_proc, sort_proc-sorts, InOrder}
use ssu_operating_system.Top.Keys.{
  Screen, Event, shift_e, enter, other, IsValid, round, rounds, round-IsValid,
}
use ssu_operating_system.Top.Columns.{lay_out, place, shown}
use ssu_operating_system.Top.Keys.Periods.{rounds-after_immediate}

abbrev procs : List MyProc
procs =
    record { pid = 7; runtime = 10; cpu = 5; mem = 1; rss = 30 }
    ∷ record { pid = 3; runtime = 20; cpu = 5; mem = 1; rss = 40 }
    ∷ record { pid = 9; runtime = 5; cpu = 80; mem = 2; rss = 10 }
    ∷ []

sort_proc-sorts_example :
    Perm (sort_proc mem_mode true procs) procs
    × IsSorted (InOrder mem_mode true) (sort_proc mem_mode true procs)
sort_proc-sorts_example = sort_proc-sorts mem_mode true procs

abbrev start : Screen
start = record {
  row = 0;
  col = 0;
  proc_cnt = 3;
  sort_mode = cpu_mode;
  byte_unit = 6;
  reverse_mode = false;
  kill_mode = false;
  print = false;
  d_option = false;
  n_option = true;
  update_time = 3;
  update_period = 2;
  before = 100;
  signals = [];
}

abbrev delayed : Screen
delayed = record start { d_option = true; n_option = false; update_time = 10 }

start-IsValid : IsValid start
start-IsValid = record {
  unit_low = omega arith;
  unit_high = omega arith;
  drawn = refl;
  killed = refl;
}

abbrev unit_key : Event
unit_key = record { key = shift_e; now = 101; found = 4; input = pos 0 }

abbrev enter_key : Event
enter_key = record { key = enter; now = 101; found = 4; input = pos 0 }

abbrev idle : Event
idle = record { key = other; now = 101; found = 4; input = pos 0 }

round-IsValid_example : IsValid (round start unit_key).0
round-IsValid_example = round-IsValid start unit_key start-IsValid

rounds-after_immediate_example : (rounds (round delayed enter_key).0 (idle ∷ idle ∷ [])).1 ≡ 2
rounds-after_immediate_example =
    rounds-after_immediate delayed enter_key (idle ∷ idle ∷ []) refl refl refl (refl, (refl, tt))

abbrev machine : Machine
machine = record {
  now = 103;
  before = 100;
  time = 1_000_000;
  uptime = 5000;
  hertz = 100;
  total_memory = 8000;
  strftime = λ format start. codes "13:00";
}

abbrev earlier : Numbers
earlier = record {
  pid = 7;
  ppid = 1;
  utime = 200;
  stime = 100;
  start_ticks = 400_000;
  priority = pos 20;
  nice = pos 0;
}

-- A kernel thread, whose status has no row of memory.
abbrev files : Files
files = record {
  readable = true;
  stat_readable = true;
  stat = some (codes "7 (kworker) I 2 0 0 0 -1 0 0 0 0 0 3 4 0 0 20 0 1 0 500 0");
  uid = 0;
  owner = some (some (codes "root"));
  status = some (codes "Name: kworker");
  cmdline = some [];
}

abbrev row : TopProc
row = record {
  keys = record { pid = 7; runtime = 7; cpu = 0; mem = 0; rss = 0 };
  uid = 0;
  ppid = 2;
  user = codes "root";
  vsz = 0;
  shr = 0;
  priority = pos 20;
  nice = pos 0;
  tty = [];
  stat = codes "I";
  start = codes "13:00";
  time = codes "0:00.07";
  cmd = codes "kworker";
  command = codes "[kworker]";
}

add_process-IsKept_example :
    IsKept
      (λ i. 0)
      (keep_time (λ i. 0) (record earlier { utime = 3; stime = 4; ppid = 2; start_ticks = 500 }))
      row
unfolding add_process from_stat from_owner from_status make_row read_status numbers cpu_percent
    keep_time tokens skip word after_word atoi number to_ulong command_name but_last read_command
    command start_text time_plus two_digits decimal at_digit reads fgets read_to read_rows advance
    user_name percent round_double scale
add_process-IsKept_example =
    add_process-IsKept machine (λ i. 0)
      (keep_time (λ i. 0) (record earlier { utime = 3; stime = 4; ppid = 2; start_ticks = 500 }))
      files row refl

abbrev listed : List TopProc
listed = row ∷ []

row-IsListed : IsListed listed row
row-IsListed = (0, refl)

print_columns-eq-none_example :
    (print_columns 40 0 0 listed listed ≡ none)
    ↔ ((lay_out 40 0 (column_width listed)).end_col < 12)
print_columns-eq-none_example =
    print_columns-eq-none 40 0 0 listed listed (omega arith) (omega arith) (omega arith)
      (omega arith)

-- After 10 steps to the right, on 12 columns: TIME+, and 3 bytes of the command.
abbrev draws : List Draw
draws =
    record { y = 6; x = pos 3; text = codes "TIME+" }
    ∷ record { y = 6; x = pos 9; text = codes "COMMAND" }
    ∷ record { y = 7; x = pos 1; text = codes "0:00.07" }
    ∷ record { y = 7; x = pos 9; text = codes "kwo" }
    ∷ []

print_columns-IsApart_example : All (IsApart (lay_out 12 10 (column_width listed))) draws
unfolding print_columns draw_titles draw_cells draw_rows draw_cmd visible_cmd draw_x longest cell
    lay_out place shown
print_columns-IsApart_example =
    print_columns-IsApart 12 10 0 listed listed draws (omega arith) (omega arith) (row-IsListed, tt)
      refl

up_texts :
    (up_text 300 ≡ codes " 5 min")
    × (up_text 7500 ≡ codes " 2:05")
    × (up_text 187_500 ≡ codes "  2 days, 04:05")
unfolding up_text two_digits decimal
up_texts = (refl, refl, refl)

abbrev states : List Text
states = codes "S" ∷ codes "R" ∷ codes "I" ∷ codes "Z" ∷ []

count_tasks-Counted_example :
    let n = count_tasks states in
    (n.total ≡ 4) × (n.running ≡ 1) × (n.sleeping ≡ 2) × (n.stopped ≡ 0) × (n.zombie ≡ 1)
count_tasks-Counted_example = count_tasks-Counted states

abbrev no_time : Before
no_time = record { uptime = 0; ticks = [] }

abbrev rows_of : List Text → Text
rows_of [] = []
rows_of (t ∷ ts) = t ++ (10 ∷ rows_of ts)

abbrev meminfo : Text
meminfo = rows_of (
    (codes "MemTotal: 8000 kB"
      ∷ codes "MemFree: 1000 kB"
      ∷ codes "MemAvailable: 5000 kB"
      ∷ codes "Buffers: 500 kB"
      ∷ codes "Cached: 2500 kB"
      ∷ [])
    ++ (replicate 9 (codes "Active: 7 kB")
        ++ ((codes "SwapTotal: 2000 kB" ∷ codes "SwapFree: 1500 kB" ∷ [])
            ++ (replicate 7 (codes "Mapped: 7 kB") ++ (codes "KReclaimable: 400 kB" ∷ [])))))

read_meminfo-IsBalanced_example :
    (read_meminfo meminfo ≡ some (mem_info 8000 1000 5000 500 2500 2000 1500 400))
    × IsBalanced (mem_info 8000 1000 5000 500 2500 2000 1500 400)
unfolding reads reads_from fgets row_number to_digit number
read_meminfo-IsBalanced_example =
    read_meminfo-IsBalanced meminfo 8000 1000 5000 500 2500 2000 1500 400 refl refl refl refl refl
      refl refl refl (omega arith) (omega arith) (omega arith) (omega arith)

-- A second reading, 3 seconds later: 50 ticks of 300 have been used.
abbrev later_files : Files
later_files = record files {
  stat = some (codes "7 (kworker) I 2 0 0 0 -1 0 0 0 0 0 43 14 0 0 20 0 1 0 500 0");
}

abbrev later_row : TopProc
later_row = record row {
  keys = record { pid = 7; runtime = 57; cpu = 167; mem = 0; rss = 0 };
  time = codes "0:00.57";
}

abbrev earlier_machine : Machine
earlier_machine = record machine { now = 100; before = 97 }

abbrev kept : ℕ → ℕ → ℕ
kept runtime i = if i == 7 then runtime else 0

add_process-interval_example : later_row.keys.cpu ≡ 167
unfolding add_process from_stat from_owner from_status make_row read_status numbers cpu_percent
    keep_time tokens skip word after_word atoi number to_ulong command_name but_last read_command
    command start_text time_plus two_digits decimal at_digit reads fgets read_to read_rows advance
    user_name percent round_double scale
add_process-interval_example =
    add_process-interval earlier_machine machine (λ i. 0) (kept 7) (kept 7)
      (λ i. if i == 7 then 57 else kept 7 i) files later_files row later_row refl refl refl refl
      refl (omega arith) (omega arith)

abbrev ticks_before : List ℕ
ticks_before = 100 ∷ 0 ∷ 50 ∷ 1000 ∷ 0 ∷ 0 ∷ 0 ∷ 0 ∷ []

abbrev ticks_added : List ℕ
ticks_added = 60 ∷ 0 ∷ 30 ∷ 210 ∷ 0 ∷ 0 ∷ 0 ∷ 0 ∷ []

-- Over 3 seconds, with two numbers more in the row and another row behind it.
cpu_line-add_each_example :
    (s1 : List (ℤ × ℕ)) × (kept_first : Before) × (cpu_line 100 no_time 1000
        (some (stat_file (ticks_before ++ (0 ∷ 0 ∷ [])) (codes "cpu0")))
      ≡ some (s1, kept_first))
    × (cpu_line 100 kept_first 1003
          (some (stat_file (add_each ticks_before ticks_added ++ (0 ∷ 0 ∷ [])) (codes "cpu0")))
        ≡ some (
          (pos 60, 300)
              ∷ (pos 0, 300)
              ∷ (pos 30, 300)
              ∷ (pos 210, 300)
              ∷ (pos 0, 300)
              ∷ (pos 0, 300)
              ∷ (pos 0, 300)
              ∷ (pos 0, 300)
              ∷ [],
          record { uptime = 1003; ticks = add_each ticks_before ticks_added },
        ))
unfolding decimal
cpu_line-add_each_example =
    cpu_line-add_each 100 1000 1003 no_time ticks_before ticks_added (0 ∷ 0 ∷ []) (0 ∷ 0 ∷ [])
      (codes "cpu0") (codes "cpu0") refl refl
      (
        omega arith,
        (
          omega arith,
          (
            omega arith,
            (omega arith, (omega arith, (omega arith, (omega arith, (omega arith, tt))))),
          ),
        ),
      )
      (
        omega arith,
        (
          omega arith,
          (
            omega arith,
            (omega arith, (omega arith, (omega arith, (omega arith, (omega arith, tt))))),
          ),
        ),
      )
      (omega arith) (omega arith) (omega arith) (omega arith) (omega arith) (omega arith)
