-- ===== src/Top/Sort.antt =====
-- isGreater and SortProc of Assignment_2/mytop.c. `cpu` and `mem`, which RoundDouble leaves with one
-- digit after the point, are numbers of tenths.
use ssu_operating_system.Base.{
  ℕ, ◌<◌, ◌≤◌, ◌≡◌, refl, Bool, true, false, not, List, if◌then◌else◌, arith, ltb, ◌⊎◌, inr,
}
use mathlib.Core.List.{Perm}
use ssu_operating_system.Top.Bubble.{bubble_sort, bubble_sort-perm, bubble_sort-IsSorted, IsSorted}

pub record MyProc : Type 0 where
  pub pid : ℕ
  pub runtime : ℕ
  pub cpu : ℕ
  pub mem : ℕ
  pub rss : ℕ

-- CPU_MODE, MEM_MODE, PID_MODE and TIME_MODE.
pub data SortMode : Type 0 where
  cpu_mode mem_mode pid_mode time_mode : SortMode

-- The end of isGreater.
directed : Bool → Bool → Bool
directed reverse_mode value = if not reverse_mode then value else not value

is_greater : SortMode → Bool → MyProc → MyProc → Bool
unfolding directed
is_greater cpu_mode reverse_mode a b =
    if ltb a.cpu b.cpu
    then directed reverse_mode true
    else if ltb b.cpu a.cpu
    then directed reverse_mode false
    else if ltb b.pid a.pid
    then true
    else false
is_greater mem_mode reverse_mode a b =
    if ltb a.mem b.mem
    then directed reverse_mode true
    else if ltb b.mem a.mem
    then directed reverse_mode false
    else if ltb a.rss b.rss
    then directed reverse_mode true
    else if ltb b.rss a.rss
    then directed reverse_mode false
    else if ltb b.pid a.pid
    then true
    else false
is_greater pid_mode reverse_mode a b =
    directed reverse_mode (if ltb b.pid a.pid then true else false)
is_greater time_mode reverse_mode a b =
    if ltb a.runtime b.runtime
    then directed reverse_mode true
    else if ltb b.runtime a.runtime
    then directed reverse_mode false
    else if ltb b.pid a.pid
    then true
    else false

-- SortProc, over the processes that the pointers of `sorted` point to.
pub sort_proc : SortMode → Bool → List MyProc → List MyProc
unfolding is_greater bubble_sort
sort_proc mode reverse_mode procs = bubble_sort (is_greater mode reverse_mode) procs

-- `x` may stand before `y`: a greater key first, or a smaller one in reverse.
abbrev Leads : Bool → ℕ → ℕ → Type 0
Leads false x y = y < x
Leads true x y = x < y

-- What the order is meant to be: by the mode's keys, greater first, the other way round in reverse,
-- and by process number, smaller first, where they are equal. By process number alone smaller is
-- first, and greater in reverse.
abbrev pub InOrder : SortMode → Bool → MyProc → MyProc → Type 0
InOrder cpu_mode r x y = Leads r x.cpu y.cpu ⊎ ((x.cpu ≡ y.cpu) × (x.pid ≤ y.pid))
InOrder mem_mode r x y =
    Leads r x.mem y.mem
    ⊎ ((x.mem ≡ y.mem) × (Leads r x.rss y.rss ⊎ ((x.rss ≡ y.rss) × (x.pid ≤ y.pid))))
InOrder pid_mode false x y = x.pid ≤ y.pid
InOrder pid_mode true x y = y.pid ≤ x.pid
InOrder time_mode r x y = Leads r x.runtime y.runtime ⊎ ((x.runtime ≡ y.runtime) × (x.pid ≤ y.pid))

InOrder-refl : (mode : SortMode) (r : Bool) (x : MyProc) → InOrder mode r x x
InOrder-refl cpu_mode r x = inr (refl, omega arith)
InOrder-refl mem_mode r x = inr (refl, inr (refl, omega arith))
InOrder-refl pid_mode false x = omega arith
InOrder-refl pid_mode true x = omega arith
InOrder-refl time_mode r x = inr (refl, omega arith)

InOrder-trans :
    (mode : SortMode) (r : Bool) (x y z : MyProc)
    → InOrder mode r x y
    → InOrder mode r y z
    → InOrder mode r x z
InOrder-trans cpu_mode false x y z h k = grind arith
InOrder-trans cpu_mode true x y z h k = grind arith
InOrder-trans mem_mode false x y z h k = grind arith
InOrder-trans mem_mode true x y z h k = grind arith
InOrder-trans pid_mode false x y z h k = omega arith
InOrder-trans pid_mode true x y z h k = omega arith
InOrder-trans time_mode false x y z h k = grind arith
InOrder-trans time_mode true x y z h k = grind arith

InOrder-put :
    (mode : SortMode) (r : Bool) (x y : MyProc) → is_greater mode r x y ≡ true → InOrder mode r y x
unfolding is_greater
InOrder-put cpu_mode false x y h = ground arith
InOrder-put cpu_mode true x y h = ground arith
InOrder-put mem_mode false x y h = ground arith
InOrder-put mem_mode true x y h = ground arith
InOrder-put pid_mode false x y h = ground arith
InOrder-put pid_mode true x y h = ground arith
InOrder-put time_mode false x y h = ground arith
InOrder-put time_mode true x y h = ground arith

InOrder-keep :
    (mode : SortMode) (r : Bool) (x y : MyProc) → is_greater mode r x y ≡ false → InOrder mode r x y
unfolding is_greater
InOrder-keep cpu_mode false x y h = ground arith
InOrder-keep cpu_mode true x y h = ground arith
InOrder-keep mem_mode false x y h = ground arith
InOrder-keep mem_mode true x y h = ground arith
InOrder-keep pid_mode false x y h = ground arith
InOrder-keep pid_mode true x y h = ground arith
InOrder-keep time_mode false x y h = ground arith
InOrder-keep time_mode true x y h = ground arith

-- In each mode, reversed or not, SortProc leaves the processes that it was given, in the order of
-- the mode: each stands before all that come after it. By CPU, memory and time the larger is first,
-- and with R the smaller; by PID the smaller is first, and with R the larger.
pub sort_proc-sorts :
    (mode : SortMode) (reverse_mode : Bool) (procs : List MyProc)
    → Perm (sort_proc mode reverse_mode procs) procs
      × IsSorted (InOrder mode reverse_mode) (sort_proc mode reverse_mode procs)
unfolding sort_proc
sort_proc-sorts mode r procs = (
  bubble_sort-perm (is_greater mode r) procs,
  bubble_sort-IsSorted (is_greater mode r) (InOrder mode r) (InOrder-refl mode r)
      (InOrder-put mode r) (InOrder-keep mode r) (InOrder-trans mode r) procs,
)
