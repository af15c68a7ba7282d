-- ===== src/Top/Screen.antt =====
-- The columns that PrintTOP of Assignment_2/mytop.c prints: their widths, the titles and the cells of
-- the processes. A call of `mvprintw` is a `Draw`; `none` is an access out of `cmd`. The black bar
-- behind the titles is left out.
pub mod Widths
pub mod Apart
pub mod Narrow
use ssu_operating_system.Base.{
  ℕ, ◌+◌, ◌-◌, ◌*◌, ◌<◌, ◌≤◌, ◌≡◌, Bool, true, false, ◌&&◌, Option, none, some, List, [], ◌∷◌, ◌++◌,
  ◌>>=◌, if◌then◌else◌, ltb, leb, ◌==◌, length, map, take, drop, get_or, All,
}
use ssu_operating_system.Base.Int.{ℤ, pos, negsuc}
use ssu_operating_system.Base.Text.{Text, codes, decimal, tenths}
use ssu_operating_system.Proc.Number.{integer}
use ssu_operating_system.Top.Columns.{Layout, minus, lay_out}
use ssu_operating_system.Top.Record.{TopProc}

-- PID_IDX, USER_IDX and so on.
pub data Column : Type 0 where
  pid_idx user_idx pr_idx ni_idx virt_idx res_idx shr_idx s_idx cpu_idx mem_idx time_p_idx : Column
  command_idx : Column

abbrev pub idx : Column → ℕ
idx pid_idx = 0
idx user_idx = 1
idx pr_idx = 2
idx ni_idx = 3
idx virt_idx = 4
idx res_idx = 5
idx shr_idx = 6
idx s_idx = 7
idx cpu_idx = 8
idx mem_idx = 9
idx time_p_idx = 10
idx command_idx = 11

abbrev pub title : Column → Text
title pid_idx = codes "PID"
title user_idx = codes "USER"
title pr_idx = codes "PR"
title ni_idx = codes "NI"
title virt_idx = codes "VIRT"
title res_idx = codes "RES"
title shr_idx = codes "SHR"
title s_idx = codes "S"
title cpu_idx = codes "%CPU"
title mem_idx = codes "%MEM"
title time_p_idx = codes "TIME+"
title command_idx = codes "COMMAND"

-- What is measured and, but for the command, printed.
unfoldable pub cell : Column → TopProc → Text
unfolding tenths
cell pid_idx p = decimal p.keys.pid
cell user_idx p = p.user
cell pr_idx p = integer p.priority
cell ni_idx p = integer p.nice
cell virt_idx p = decimal p.vsz
cell res_idx p = decimal p.keys.rss
cell shr_idx p = decimal p.shr
cell s_idx p = p.stat
cell cpu_idx p = tenths p.keys.cpu
cell mem_idx p = tenths p.keys.mem
cell time_p_idx p = p.time
cell command_idx p = p.command

-- The loop over the processes that makes an entry of `columnWidth` as long as the longest cell.
unfoldable pub longest : (TopProc → Text) → ℕ → List TopProc → ℕ
longest text width [] = width
longest text width (p ∷ procs) =
    longest text (if ltb width (length (text p)) then length (text p) else width) procs

-- The columns in front of COMMAND.
abbrev table_columns : List Column
table_columns =
    pid_idx ∷ user_idx ∷ pr_idx ∷ ni_idx ∷ virt_idx ∷ res_idx ∷ shr_idx ∷ s_idx ∷ cpu_idx ∷ mem_idx
    ∷ time_p_idx ∷ []

abbrev pub width_of : List TopProc → Column → ℕ
width_of procs c = longest (cell c) (length (title c)) procs

-- `columnWidth`, by index.
abbrev pub column_width : List TopProc → ℕ → ℕ
column_width procs i = get_or (map (width_of procs) (table_columns ++ (command_idx ∷ []))) i 0

-- `mvprintw(y, x, "%s", text)`.
pub record Draw : Type 0 where
  pub y : ℕ
  pub x : ℤ
  pub text : Text

-- `startX[…] + gap` for a text in a column, where it is on the right, and one place more for TIME+.
unfoldable pub draw_x : Column → ℕ → ℕ → Text → ℤ
draw_x user_idx start width t = pos start
draw_x s_idx start width t = pos start
draw_x command_idx start width t = pos start
draw_x time_p_idx start width t = minus (start + width + 1) (length t)
draw_x pid_idx start width t = minus (start + width) (length t)
draw_x pr_idx start width t = minus (start + width) (length t)
draw_x ni_idx start width t = minus (start + width) (length t)
draw_x virt_idx start width t = minus (start + width) (length t)
draw_x res_idx start width t = minus (start + width) (length t)
draw_x shr_idx start width t = minus (start + width) (length t)
draw_x cpu_idx start width t = minus (start + width) (length t)
draw_x mem_idx start width t = minus (start + width) (length t)

-- The columns that are shown, one after another, with the texts of a row.
unfoldable pub draw_cells : Layout → (ℕ → ℕ) → ℕ → (Column → Text) → List Column → List Draw
unfolding draw_x
draw_cells l width y text [] = []
draw_cells l width y text (c ∷ columns) =
    let rest = draw_cells l width y text columns in
    if leb l.start_col (idx c) && ltb (idx c) l.end_col
    then record { y = y; x = draw_x c (l.start_x (idx c)) (width (idx c)) (text c); text = text c }
      ∷ rest
    else rest

-- The titles; that of COMMAND is printed in any case.
unfoldable pub draw_titles : Layout → (ℕ → ℕ) → List Draw
unfolding draw_cells
draw_titles l width =
    draw_cells l width 6 title table_columns
    ++ (record { y = 6; x = pos (l.start_x 11); text = title command_idx } ∷ [])

-- `cmd[maxCmd] = '\0'` and what is printed from `cmd + tap * TAB_WIDTH` on, of 1024 bytes.
unfoldable pub visible_cmd : ℤ → ℕ → Text → Option Text
visible_cmd (negsuc n) skipped cmd = none
visible_cmd (pos n) skipped cmd =
    if ltb n 1024 && ltb skipped 1024 then some (drop skipped (take n cmd)) else none

unfoldable pub draw_cmd : Layout → ℕ → ℕ → TopProc → Option (List Draw)
unfolding visible_cmd
draw_cmd l col y p = if col == 11 && ltb (length p.command) ((col - 11) * 8) then some [] else (do
  t ← visible_cmd l.max_cmd (if ltb col 11 then 0 else (col - 11) * 8) p.cmd
  some (record { y = y; x = pos (l.start_x 11); text = t } ∷ []))

-- The rows of the processes, from a line of the screen on.
unfoldable pub draw_rows : Layout → (ℕ → ℕ) → ℕ → ℕ → List TopProc → Option (List Draw)
unfolding draw_cmd draw_cells
draw_rows l width col y [] = some []
draw_rows l width col y (p ∷ procs) = do
  cmd ← draw_cmd l col y p
  rest ← draw_rows l width col (y + 1) procs
  some (draw_cells l width y (λ c. cell c p) table_columns ++ (cmd ++ rest))

-- The columns of PrintTOP, with COLS, `col`, `row`, `procList` and `sorted`.
unfoldable pub print_columns : ℕ → ℕ → ℕ → List TopProc → List TopProc → Option (List Draw)
unfolding draw_titles draw_rows lay_out
print_columns cols col row procs sorted =
    let l = lay_out cols col (column_width procs) in
    do
      rows ← draw_rows l (column_width procs) col 7 (drop row sorted)
      some (draw_titles l (column_width procs) ++ rows)
