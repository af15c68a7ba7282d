-- ===== src/Pager/Tests.antt =====
-- Concrete runs of the models of Assignment_5/simulator.c.
use ssu_operating_system.Base.{
  ℕ, ◌≤◌, ◌≡◌, refl, true, Option, none, some, List, [], ◌∷◌, arith, All, set, ◌>>=◌,
}
use ssu_operating_system.Base.Int.{ℤ, pos}
use ssu_operating_system.Pager.{
  Memory, Row, run, opt, fifo, lru, second_chance, step_of, opt_step, lru_step, chance_from, sweep,
  claim,
}
use ssu_operating_system.Pager.Invariant.{IsValid, Serves}
use ssu_operating_system.Pager.Run.{run_total, step_of-Serves, Answers, marked, first_uses}
use ssu_operating_system.Pager.Fifo.Queue.{run_fifo-queue_run, Agrees}
use ssu_operating_system.Pager.Opt.{opt_step-Furthest, Furthest}
use ssu_operating_system.Pager.Lru.{lru_step-least, UsedFrom, LastUsed}
use ssu_operating_system.Pager.Chance.Clock.{chance_from-clock, clock}

faults : Option (List Row × Memory) → Option ℕ
faults none = none
faults (some (rows, m)) = some m.page_fault

abbrev refs : List ℤ
refs =
    pos 7
    ∷ pos 0
    ∷ pos 1
    ∷ pos 2
    ∷ pos 0
    ∷ pos 3
    ∷ pos 0
    ∷ pos 4
    ∷ pos 2
    ∷ pos 3
    ∷ pos 0
    ∷ pos 3
    ∷ pos 2
    ∷ pos 1
    ∷ pos 2
    ∷ pos 0
    ∷ pos 1
    ∷ pos 7
    ∷ pos 0
    ∷ pos 1
    ∷ []

fifo_faults : faults (run fifo 3 refs) ≡ some 15
unfolding faults run
fifo_faults = refl

lru_faults : faults (run lru 3 refs) ≡ some 12
unfolding faults run
lru_faults = refl

opt_faults : faults (run opt 3 refs) ≡ some 9
unfolding faults run
opt_faults = refl

chance_faults : faults (run second_chance 3 refs) ≡ some 11
unfolding faults run
chance_faults = refl

-- Three pages in three frames, after their first references.
abbrev three : Memory
three = record {
  page_frame = pos 7 ∷ pos 0 ∷ pos 1 ∷ [];
  reference_bit = 1 ∷ 0 ∷ 1 ∷ [];
  victim = 2;
  page_fault = 3;
  replace = true;
}

abbrev past : List ℤ
past = pos 1 ∷ pos 0 ∷ pos 7 ∷ []

abbrev future : List ℤ
future = pos 0 ∷ pos 1 ∷ pos 7 ∷ []

three-IsValid : IsValid 3 past three
three-IsValid = record {
  size = refl;
  bits = refl;
  hand = omega arith;
  packed = (refl, (refl, (refl, tt)));
  distinct = (refl, (refl, (refl, tt)));
  seen = (refl, (refl, (refl, tt)));
}

run_total_example :
    (rows : List Row) × (m : Memory) × (run second_chance 3 past ≡ some (rows, m))
    × Answers 0 past rows
    × (m.page_fault ≡ marked rows)
    × (first_uses [] past ≤ marked rows)
    × (marked rows ≤ 3)
run_total_example =
    run_total second_chance 3 past (omega arith) (omega arith) (refl, (refl, (refl, tt)))

step_of-Serves_example : Serves 3 past (pos 2) three (step_of lru three past (pos 2) future)
step_of-Serves_example =
    step_of-Serves lru 3 past (pos 2) future three (omega arith) three-IsValid refl

run_fifo-queue_run_example : Agrees 2 [] past (run fifo 2 past)
run_fifo-queue_run_example = run_fifo-queue_run 2 past (omega arith) (refl, (refl, (refl, tt)))

opt_step-Furthest_example :
    (w : ℕ) × (opt_step three past (pos 2) future
      ≡ some (record three {
        page_frame = set three.page_frame w (pos 2);
        page_fault = 4;
        replace = true;
      }))
    × Furthest future 3 three.page_frame w
opt_step-Furthest_example = opt_step-Furthest (pos 2) future three three-IsValid refl refl

lru_step-least_example :
    (w : ℕ) × (k : ℕ) × (lru_step three past (pos 2) future
      ≡ some (record three {
        page_frame = set three.page_frame w (pos 2);
        page_fault = 4;
        replace = true;
      }))
    × LastUsed past three.page_frame w k
    × All (UsedFrom past k) three.page_frame
lru_step-least_example = lru_step-least (pos 2) future three three-IsValid (omega arith) refl refl

chance_from-clock_example :
    chance_from three (sweep (1 ∷ []) 2) (pos 2)
    ≡ (clock 3 4 (1 ∷ 0 ∷ 1 ∷ []) 2 >>= λ s. claim three s.0 s.1 (pos 2))
chance_from-clock_example =
    chance_from-clock three (pos 2) three-IsValid (omega arith, (omega arith, (omega arith, tt)))
