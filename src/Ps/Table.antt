-- ===== src/Ps/Table.antt =====
-- PrintPS of Assignment_2/myps.c. `cpu` and `mem`, which RoundDouble leaves with one digit after the
-- point, are numbers of tenths. A width is an `int`, and -1 marks a column that is left out.
pub mod Align
pub mod Rows
use ssu_operating_system.Base.{
  ℕ, zero, suc, ◌+◌, ◌-◌, ◌/◌, ◌%◌, ◌<◌, ◌≤◌, ◌≡◌, refl, Bool, true, false, ◌&&◌, ◌||◌, not, Option,
  none, some, List, [], ◌∷◌, ◌++◌, if◌then◌else◌, ◌==◌, ltb, ◌>>=◌, length, map, take,
}
use ssu_operating_system.Base.Int.{ℤ, pos, negsuc}
use ssu_operating_system.Base.Text.{Text, codes, spaces, decimal, tenths}
use ssu_operating_system.Ps.Options.{Options}

pub record Proc : Type 0 where
  pub pid : ℕ
  pub uid : ℕ
  pub ppid : ℕ
  pub user : Text
  pub cpu : ℕ
  pub mem : ℕ
  pub vsz : ℕ
  pub rss : ℕ
  pub shr : ℕ
  pub priority : ℤ
  pub nice : ℤ
  pub tty : Text
  pub stat : Text
  pub start : Text
  pub time : Text
  pub cmd : Text
  pub command : Text

-- `columnWidth`.
pub record Widths : Type 0 where
  pub user : ℤ
  pub uid : ℤ
  pub pid : ℤ
  pub ppid : ℤ
  pub c : ℤ
  pub stime : ℤ
  pub cpu : ℤ
  pub mem : ℤ
  pub vsz : ℤ
  pub rss : ℤ
  pub tty : ℤ
  pub stat : ℤ
  pub start : ℤ
  pub time : ℤ
  pub cmd : ℤ
  pub command : ℤ

-- One loop over `procList`: the width of the title, or that of the longest cell.
unfoldable pub widest : (Proc → Text) → ℕ → List Proc → ℕ
widest cell w [] = w
widest cell w (p ∷ procs) =
    widest cell (if ltb w (length (cell p)) then length (cell p) else w) procs

unfoldable pub c_cell : Proc → Text
c_cell p = decimal (p.cpu / 10)

unfoldable pub widths : List Proc → Widths
unfolding widest c_cell tenths
widths procs = record {
  user = pos (widest (λ p. p.user) 4 procs);
  uid = pos (widest (λ p. p.user) 3 procs);
  pid = pos (widest (λ p. decimal p.pid) 3 procs);
  ppid = pos (widest (λ p. decimal p.ppid) 4 procs);
  c = pos (widest c_cell 1 procs);
  stime = pos (widest (λ p. p.start) 5 procs);
  cpu = pos (widest (λ p. tenths p.cpu) 4 procs);
  mem = pos (widest (λ p. tenths p.mem) 4 procs);
  vsz = pos (widest (λ p. decimal p.vsz) 3 procs);
  rss = pos (widest (λ p. decimal p.rss) 3 procs);
  tty = pos (widest (λ p. p.tty) 3 procs);
  stat = pos (widest (λ p. p.stat) 4 procs);
  start = pos (widest (λ p. p.start) 5 procs);
  time = pos (widest (λ p. p.time) 4 procs);
  cmd = pos (widest (λ p. p.cmd) 3 procs);
  command = pos (widest (λ p. p.command) 7 procs);
}

abbrev pub out : ℤ
out = negsuc 0

-- The columns that the options leave out. (`UID_IDX` is not among them, whatever the comment says.)
unfoldable pub hide : Options → Widths → Widths
hide o w =
    if o.f
    then record w { user = out; mem = out; vsz = out; rss = out; stat = out; command = out }
    else if not o.a && (not o.u && not o.x)
    then record w {
      ppid = out;
      c = out;
      stime = out;
      user = out;
      cpu = out;
      mem = out;
      vsz = out;
      rss = out;
      stat = out;
      start = out;
      command = out;
    }
    else if not o.u
    then record w {
      ppid = out;
      c = out;
      stime = out;
      user = out;
      cpu = out;
      mem = out;
      vsz = out;
      rss = out;
      start = out;
      cmd = out;
    }
    else record w { ppid = out; c = out; stime = out; cmd = out }

-- The rounds of `for (int i = 0; i < gap + extra; i++)` with `gap` the width less a length.
unfoldable pub gap : ℤ → ℕ → ℕ → ℕ
gap (pos w) extra len = w + extra - len
gap (negsuc n) extra len = extra - (suc n + len)

unfoldable pub left : ℤ → Text → Text
unfolding gap
left w cell = cell ++ (spaces (gap w 0 (length cell)) ++ (b' ' ∷ []))

unfoldable pub right : ℤ → ℕ → Text → Text
unfolding gap
right w extra cell = spaces (gap w extra (length cell)) ++ (cell ++ (b' ' ∷ []))

abbrev pub when : Bool → Text → Text
when b s = if b then s else []

abbrev pub shows_stat : Options → Bool
shows_stat o = not o.e && (o.a || (o.u || o.x))

-- `buf` before the title COMMAND or CMD.
unfoldable pub header_prefix : Options → Widths → Text
header_prefix o w =
    when o.u (left w.user (codes "USER"))
    ++ (when o.f (left w.uid (codes "UID"))
        ++ (codes "  "
            ++ (right w.pid 1 (codes "PID")
                ++ (when o.f (right w.ppid 0 (codes "PPID"))
                    ++ (when o.f (right w.c 0 (codes "C"))
                        ++ (when o.f (left w.stime (codes "STIME"))
                            ++ (when o.u (right w.cpu 0 (codes "%CPU"))
                                ++ (when o.u (right w.mem 0 (codes "%MEM"))
                                    ++ (when o.u (right w.vsz 0 (codes "VSZ"))
                                        ++ (when o.u (right w.rss 0 (codes "RSS"))
                                            ++ (left w.tty (codes "TTY")
                                                ++ (when (shows_stat o)
                                                      (right w.stat 3 (codes "STAT"))
                                                    ++ (when o.u (left w.start (codes "START"))
                                                        ++ right w.time 2
                                                            (codes "TIME"))))))))))))))

unfoldable pub header_title : Options → Text
header_title o =
    if o.e || o.f then codes "CMD" else if o.a || (o.u || o.x) then codes "COMMAND" else codes "CMD"

-- `buf` of a process before its command.
unfoldable pub row_prefix : Options → Widths → Proc → Text
row_prefix o w p =
    when o.u (left w.user p.user)
    ++ (when o.f (left w.uid p.user)
        ++ (codes "  "
            ++ (right w.pid 1 (decimal p.pid)
                ++ (when o.f (right w.ppid 0 (decimal p.ppid))
                    ++ (when o.f (right w.c 0 (c_cell p))
                        ++ (when o.f (left w.stime p.start)
                            ++ (when o.u (right w.cpu 0 (tenths p.cpu))
                                ++ (when o.u (right w.mem 0 (tenths p.mem))
                                    ++ (when o.u (right w.vsz 0 (decimal p.vsz))
                                        ++ (when o.u (right w.rss 0 (decimal p.rss))
                                            ++ (left w.tty p.tty
                                                ++ (when (shows_stat o)
                                                      (codes "   " ++ left w.stat p.stat)
                                                    ++ (when o.u (left w.start p.start)
                                                        ++ right w.time 2 p.time)))))))))))))

unfoldable pub row_command : Options → Proc → Text
row_command o p = if o.a || (o.u || (o.x || o.f)) then p.command else p.cmd

-- `buf[COLS] = '\0'` and the print. `none` is a `strcat` or a write past the 1024 bytes of `buf`:
-- the text only grows, so its last length decides for every `strcat`.
pub emit : ℕ → Text → Option Text
emit cols text = if ltb (length text) 1024 && ltb cols 1024 then some (take cols text) else none

pub is_listed : ℕ → List ℕ → Bool
is_listed pid [] = false
is_listed pid (q ∷ list) = if pid == q then true else is_listed pid list

-- The loop over `procList`.
pub rows : Options → ℕ → Widths → List Proc → Option (List Text)
rows o cols w [] = some []
rows o cols w (p ∷ procs) =
    let rest = rows o cols w procs in
    if o.p && not (is_listed p.pid o.pid_list) then rest else (do
      line ← emit cols (row_prefix o w p ++ row_command o p)
      lines ← rest
      some (line ∷ lines))

pub print_ps : Options → ℕ → List Proc → Option (List Text)
unfolding rows emit header_prefix header_title hide widths
print_ps o cols procs =
    let w = hide o (widths procs) in
    if o.h then rows o cols w procs else (do
      line ← emit cols (header_prefix o w ++ header_title o)
      lines ← rows o cols w procs
      some (line ∷ lines))
