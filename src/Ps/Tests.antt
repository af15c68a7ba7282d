-- ===== src/Ps/Tests.antt =====
-- Concrete runs of the models of Assignment_2/myps.c.
use ssu_operating_system.Base.{
  ◌≡◌, refl, true, ◌↔◌, some, List, [], ◌∷◌, ◌++◌, arith, length, map, replicate, take,
}
use ssu_operating_system.Base.Text.{tenths, Text, codes, decimal}
use ssu_operating_system.Input.{reads}
use ssu_operating_system.Proc.Token.{line_of}
use ssu_operating_system.Proc.Status.{memory_of}
use ssu_operating_system.Proc.Command.{cmdline_of}
use ssu_operating_system.Ps.Record.{Machine, Files, add_process}
use ssu_operating_system.Ps.Record.Stat.{Stat, stat_tokens, IsLine}
use ssu_operating_system.Ps.Record.Line.{proc_of, add_process-proc_of}
use ssu_operating_system.Ps.Options.{
  Options, no_options, parse, parse-map-decimal, parse-eq-syntax_error, first_stop, ok,
  syntax_error,
}
use ssu_operating_system.Base.Int.{pos}
use ssu_operating_system.Ps.Table.{
  Proc, widths, hide, print_ps, row_prefix, header_prefix, header_title, row_command, widest,
  c_cell, left, right, gap,
}
use ssu_operating_system.Ps.Table.Align.{row_prefix-header_prefix}
use ssu_operating_system.Ps.Table.Rows.{print_ps_lem, row, header}

abbrev by_number : Options
by_number = record no_options { p = true; a = true; x = true }

abbrev with_user : Options
with_user = record no_options { u = true }

abbrev shell : Proc
shell = record {
  pid = 1234;
  uid = 1000;
  ppid = 1;
  user = codes "user";
  cpu = 15;
  mem = 2;
  vsz = 10000;
  rss = 5000;
  shr = 3000;
  priority = pos 20;
  nice = pos 0;
  tty = codes "pts/0";
  stat = codes "Ss";
  start = codes "10:00";
  time = codes "0:00";
  cmd = codes "bash";
  command = codes "-bash";
}

parse-map-decimal_example :
    parse by_number (map decimal (12 ∷ 345 ∷ []))
    ≡ ok (record by_number { pid_list = 12 ∷ 345 ∷ [] })
parse-map-decimal_example =
    parse-map-decimal by_number (12 ∷ 345 ∷ []) refl (omega arith, (omega arith, tt)) (omega arith)

parse-eq-syntax_error_example :
    (parse by_number (codes "12" ∷ codes "x" ∷ []) ≡ syntax_error)
    ↔ (first_stop 0 (codes "12" ∷ codes "x" ∷ []) ≡ some true)
parse-eq-syntax_error_example = parse-eq-syntax_error by_number (codes "12" ∷ codes "x" ∷ []) refl

print_ps_lem_example :
    print_ps no_options 80 (shell ∷ [])
    ≡ some (
        take 80 (header no_options (hide no_options (widths (shell ∷ []))))
        ∷ take 80 (row no_options (hide no_options (widths (shell ∷ []))) shell)
        ∷ [])
unfolding header_prefix header_title hide widths row_prefix row_command widest tenths c_cell left
    right gap decimal
print_ps_lem_example =
    print_ps_lem no_options 80 (shell ∷ []) (omega arith) (omega arith) (omega arith, tt)

row_prefix-header_prefix_example :
    length (row_prefix with_user (hide with_user (widths (shell ∷ []))) shell)
    ≡ length (header_prefix with_user (hide with_user (widths (shell ∷ []))))
row_prefix-header_prefix_example = row_prefix-header_prefix with_user (shell ∷ []) 0 shell refl refl

abbrev machine : Machine
machine = record {
  now = 1_000_000;
  uptime = 5000;
  hertz = 100;
  total_memory = 8000;
  strftime = λ format start. codes "13:00";
}

abbrev shell_stat : Stat
shell_stat = record {
  pid = 1234;
  name = codes "bash";
  letter = b'S';
  ppid = 1;
  sid = pos 1234;
  tpgid = pos 1300;
  utime = 200;
  stime = 100;
  priority = pos 20;
  nice = pos 0;
  threads = pos 1;
  start_ticks = 400_000;
  unread = λ i. codes "0";
}

shell_stat-IsLine : IsLine shell_stat
shell_stat-IsLine = record {
  pid = omega arith;
  name = refl;
  name_short = omega arith;
  letter = refl;
  plain = refl;
  ppid = omega arith;
  sid = omega arith;
  tpgid = omega arith;
  utime = omega arith;
  stime = omega arith;
  priority = omega arith;
  nice = omega arith;
  threads = omega arith;
  start_ticks = omega arith;
  unread = λ i. (omega arith, refl, omega arith);
}

abbrev rows_of : List Text → Text
rows_of [] = []
rows_of (t ∷ ts) = t ++ (10 ∷ rows_of ts)

abbrev status : Text
status =
    rows_of
      (replicate 17 (codes "Name: bash") ++ (codes "VmSize: 10000 kB" ∷ codes "VmLck: 0 kB" ∷ []))

abbrev shell_files : Files
shell_files = record {
  readable = true;
  stat_readable = true;
  stat = some (line_of (stat_tokens shell_stat) ++ codes "0 0");
  uid = 1000;
  owner = some (some (codes "user"));
  status = some status;
  tty = some (codes "pts/0");
  cmdline = some (cmdline_of (codes "bash" ∷ codes "-l" ∷ []));
}

add_process-proc_of_example :
    add_process machine no_options shell_files
    ≡ some (
        some (
          proc_of machine no_options shell_stat 1000
            (codes "user")
            (memory_of (reads status))
            (codes "pts/0")
            (codes "bash" ∷ codes "-l" ∷ [])))
add_process-proc_of_example =
    add_process-proc_of machine no_options shell_stat 1000 (codes "user") status (codes "pts/0")
      (codes "bash") (codes "-l" ∷ []) (codes "0 0") shell_stat-IsLine (omega arith) (omega arith)
      (omega arith) (omega arith) (omega arith, refl) ((omega arith, refl), tt) (omega arith)
