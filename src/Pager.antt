-- ===== src/Pager.antt =====
-- Assignment_5/simulator.c: page replacement by OPT, FIFO, LRU and Second-Chance. A page number is
-- an `int`; -1 in `page_frame` marks an empty frame. `none` is an access outside an array, which C
-- leaves undefined. The text that is printed is a row for each reference; its layout is left out.
pub mod Frames
pub mod Invariant
pub mod Lru
pub mod Opt
pub mod Fifo
pub mod Chance
pub mod Run
mod Tests
use ssu_operating_system.Base.{
  ℕ, suc, ◌+◌, Bool, true, false, Option, none, some, List, [], ◌∷◌, ◌++◌, ltb, ◌==◌, if◌then◌else◌,
  ◌>>=◌, length, set, take, drop, replicate,
}
use ssu_operating_system.Base.Int.{ℤ, negsuc, eqb, is_negative}

-- The variables of one run. `victim` lives across references in FIFO and Second-Chance only;
-- `replace` is the flag of the last reference.
pub record Memory : Type 0 where
  pub page_frame : List ℤ
  pub reference_bit : List ℕ
  pub victim : ℕ
  pub page_fault : ℕ
  pub replace : Bool

-- How the first loop over the frames ends: at the page, at an empty frame, or past the last.
pub data Probe : Type 0 where
  hit : ℕ → Probe
  vacant : ℕ → Probe
  full : Probe

pub next : Probe → Probe
next (hit j) = hit (suc j)
next (vacant j) = vacant (suc j)
next full = full

pub probe : ℤ → List ℤ → Probe
unfolding next
probe p [] = full
probe p (f ∷ fs) = if eqb f p then hit 0 else if is_negative f then vacant 0 else next (probe p fs)

-- `page_frame[v] = p`.
pub store : List ℤ → ℕ → ℤ → Option (List ℤ)
store fs v p = if ltb v (length fs) then some (set fs v p) else none

-- A write of the page into frame `v`, which counts a fault.
pub evict : Memory → ℕ → ℤ → Option Memory
unfolding store
evict m v p = do
  fs ← store m.page_frame v p
  some (record m { page_frame = fs; page_fault = m.page_fault + 1; replace = true })

-- The first loop, and `if (!check)` with what replaces a page.
pub settle : Memory → ℤ → Option Memory → Probe → Option Memory
unfolding evict
settle m p miss (hit j) = some (record m { replace = false })
settle m p miss (vacant j) = evict m j p
settle m p miss full = miss

-- OPT: the first k from `k` on with `page_reference[k]` the page.
pub next_use : ℤ → List ℤ → ℕ → Option ℕ
next_use f [] k = none
next_use f (r ∷ rs) k = if eqb f r then some k else next_use f rs (suc k)

-- `location` and `victim`, which OPT sets together; `none` is -1 and -1.
pub further : ℕ → ℕ → Option (ℕ × ℕ) → Option (ℕ × ℕ)
further k j none = some (k, j)
further k j (some (location, victim)) =
    if ltb location k then some (k, j) else some (location, victim)

pub opt_victim : List ℤ → ℕ → List ℤ → ℕ → Option (ℕ × ℕ) → Option ℕ
unfolding next_use further
opt_victim future i [] j none = none
opt_victim future i [] j (some (location, victim)) = some victim
opt_victim future i (f ∷ fs) j best = elim (next_use f future (suc i)) [
  | none ↦ some j
  | some k ↦ opt_victim future i fs (suc j) (further k j best)
]

-- `past` holds `page_reference[i - 1]`, …, `page_reference[0]`, and `future` what follows `i`.
pub opt_step : Memory → List ℤ → ℤ → List ℤ → Option Memory
unfolding settle evict opt_victim probe
opt_step m past p future =
    settle m p (do v ← opt_victim future (length past) m.page_frame 0 none; evict m v p)
      (probe p m.page_frame)

-- `if (victim == frame_size) victim = 0;`
pub wrap_victim : Memory → Memory
wrap_victim m = if m.victim == length m.page_frame then record m { victim = 0 } else m

pub fifo_step : Memory → List ℤ → ℤ → List ℤ → Option Memory
unfolding settle evict probe wrap_victim
fifo_step m past p future = do
  m' ←
      settle m p (do e ← evict m m.victim p; some (record e { victim = e.victim + 1 }))
        (probe p m.page_frame)
  some (wrap_victim m')

-- LRU: the last k below `i` with `page_reference[k]` the page.
pub last_use : ℤ → List ℤ → Option ℕ
last_use f [] = none
last_use f (r ∷ rs) = if eqb f r then some (length rs) else last_use f rs

pub nearer : ℕ → Option ℕ → ℕ × Option ℕ → ℕ × Option ℕ
nearer j none best = best
nearer j (some k) (location, victim) = if ltb k location then (k, some j) else (location, victim)

pub lru_victim : List ℤ → List ℤ → ℕ → ℕ × Option ℕ → Option ℕ
unfolding last_use nearer
lru_victim past [] j (location, victim) = victim
lru_victim past (f ∷ fs) j best = lru_victim past fs (suc j) (nearer j (last_use f past) best)

pub lru_step : Memory → List ℤ → ℤ → List ℤ → Option Memory
unfolding settle evict lru_victim probe
lru_step m past p future =
    settle m p (do v ← lru_victim past m.page_frame 0 (99, none); evict m v p)
      (probe p m.page_frame)

-- Second-Chance: a loop over the bits from index `j` on, which clears those that are 1 up to the
-- first 0. The bits as it leaves them, and where it stopped.
pub sweep : List ℕ → ℕ → List ℕ × Option ℕ
sweep [] j = ([], none)
sweep (b ∷ bs) j =
    let rest = sweep bs (suc j) in
    if b == 0 then (b ∷ bs, some j) else ((if b == 1 then 0 else b) ∷ rest.0, rest.1)

pub claim : Memory → List ℕ → ℕ → ℤ → Option Memory
unfolding evict
claim m bits j p = do e ← evict m j p; some (record e { reference_bit = bits; victim = j + 1 })

-- The second loop, below `victim`, and the replacement at `victim` where both loops found no 0.
pub chance_below : Memory → List ℕ × Option ℕ → List ℕ → ℤ → Option Memory
unfolding claim
chance_below m (low, some j) high p = claim m (low ++ high) j p
chance_below m (low, none) high p = claim m (low ++ high) m.victim p

pub chance_from : Memory → List ℕ × Option ℕ → ℤ → Option Memory
unfolding chance_below sweep
chance_from m (high, some j) p = claim m (take m.victim m.reference_bit ++ high) j p
chance_from m (high, none) p = chance_below m (sweep (take m.victim m.reference_bit) 0) high p

-- The first loop of Second-Chance also writes the bit of the frame that it stops at.
pub mark : Memory → ℤ → Option Memory → Probe → Option Memory
unfolding evict
mark m p miss (hit j) = some (record m { reference_bit = set m.reference_bit j 1; replace = false })
mark m p miss (vacant j) = do
  e ← evict m j p
  some (record e { reference_bit = set e.reference_bit j 0 })
mark m p miss full = miss

pub chance_step : Memory → List ℤ → ℤ → List ℤ → Option Memory
unfolding mark chance_from probe wrap_victim
chance_step m past p future = do
  m' ←
      mark m p (chance_from m (sweep (drop m.victim m.reference_bit) m.victim) p)
        (probe p m.page_frame)
  some (wrap_victim m')

-- What is printed for a reference: the time, the frames, and `F` for a replacement.
pub record Row : Type 0 where
  pub time : ℕ
  pub frames : List ℤ
  pub fault : Bool

abbrev pub Step : Type 0
Step = Memory → List ℤ → ℤ → List ℤ → Option Memory

-- The loop over `page_reference`.
pub simulate : Step → List ℤ → List ℤ → Memory → Option (List Row × Memory)
simulate step past [] m = some ([], m)
simulate step past (p ∷ future) m = do
  m' ← step m past p future
  rest ← simulate step (p ∷ past) future m'
  some (
    record { time = length past + 1; frames = m'.page_frame; fault = m'.replace } ∷ rest.0,
    rest.1,
  )

-- The arrays as `memset` leaves them.
pub blank : ℕ → Memory
blank frame_size = record {
  page_frame = replicate frame_size (negsuc 0);
  reference_bit = replicate frame_size 0;
  victim = 0;
  page_fault = 0;
  replace = false;
}

pub data Method : Type 0 where
  opt fifo lru second_chance : Method

pub step_of : Method → Step
unfolding opt_step fifo_step lru_step chance_step
step_of opt = opt_step
step_of fifo = fifo_step
step_of lru = lru_step
step_of second_chance = chance_step

-- One round of `while (1)` with a method's name read.
pub run : Method → ℕ → List ℤ → Option (List Row × Memory)
unfolding step_of simulate blank
run method frame_size refs = simulate (step_of method) [] refs (blank frame_size)
