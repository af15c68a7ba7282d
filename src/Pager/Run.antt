-- ===== src/Pager/Run.antt =====
-- Whole runs of Assignment_5/simulator.c, for each of the four methods.
use ssu_operating_system.Base.{
  ℕ, suc, ◌+◌, ◌<◌, ◌≤◌, ◌≡◌, refl, true, false, Option, none, some, List, [], ◌∷◌, arith,
  if◌then◌else◌, length, ◌>>=◌, Bool-cases, All, inl, inr, sym, subst,
}
use ssu_operating_system.Base.Int.{ℤ, is_negative, eqb, eqb_iff}
use ssu_operating_system.Pager.{
  Memory, Row, Step, simulate, blank, run, step_of, Method, opt, fifo, lru, second_chance,
}
use ssu_operating_system.Pager.Frames.{contains, IsSeen}
use ssu_operating_system.Pager.Invariant.{IsValid, IsServed, Serves, blank-IsValid}
use ssu_operating_system.Pager.Lru.{lru_step-Serves}
use ssu_operating_system.Pager.Opt.{opt_step-Serves}
use ssu_operating_system.Pager.Fifo.{fifo_step-Serves}
use ssu_operating_system.Pager.Chance.{chance_step-Serves}

-- The pages are page numbers, not negative.
abbrev pub ArePages : List ℤ → Type 0
ArePages = All (λ p. is_negative p ≡ false)

-- The rows that are marked `F`.
abbrev pub marked : List Row → ℕ
marked [] = 0
marked (r ∷ rows) = (if r.fault then 1 else 0) + marked rows

-- The references to a page that no earlier one names.
abbrev pub first_uses : List ℤ → List ℤ → ℕ
first_uses past [] = 0
first_uses past (p ∷ refs) = (if contains past p then 0 else 1) + first_uses (p ∷ past) refs

-- A row for each reference, in order, with its time and with its page in a frame.
abbrev pub Answers : ℕ → List ℤ → List Row → Type 0
Answers t [] [] = Unit {0}
Answers t [] (r ∷ rows) = ⊥
Answers t (p ∷ refs) [] = ⊥
Answers t (p ∷ refs) (r ∷ rows) =
    (r.time ≡ t + 1) × (contains r.frames p ≡ true) × Answers (suc t) refs rows

-- A page in a frame has been referenced.
contains-IsSeen :
    (past fs : List ℤ) (p : ℤ)
    → is_negative p ≡ false
    → IsSeen past fs
    → contains fs p ≡ true
    → contains past p ≡ true
contains-IsSeen past [] p h s c = cc
contains-IsSeen past (f ∷ fs) p h s c = elim (Bool-cases (eqb f p)) [
  | inl same ↦
      let e : f ≡ p = (eqb_iff f p).0 same in
      let used : is_negative f ≡ false = subst (λ x. is_negative x ≡ false) (sym e) h in
      subst (λ x. contains past x ≡ true) e (ground arith)
  | inr other ↦ contains-IsSeen past fs p h s.1 (ground arith)
]

record IsRun (past refs : List ℤ) (m : Memory) (out : List Row × Memory) : Type 0 where
  answers : Answers (length past) refs out.0
  counted : out.1.page_fault ≡ m.page_fault + marked out.0
  bounded : marked out.0 ≤ length refs
  compulsory : first_uses past refs ≤ marked out.0

abbrev Runs : List ℤ → List ℤ → Memory → Option (List Row × Memory) → Type 0
Runs past refs m none = ⊥
Runs past refs m (some out) = IsRun past refs m out

-- The row of the reference that `m'` has served, in front of the rows of the rest.
cons-Runs :
    {n : ℕ} {past : List ℤ} {p : ℤ} (refs : List ℤ) {m m' : Memory}
    (out : Option (List Row × Memory))
    → is_negative p ≡ false
    → IsValid n past m
    → IsServed n past p m m'
    → Runs (p ∷ past) refs m' out
    → Runs past (p ∷ refs) m (
        out >>= λ rest. some (
          record { time = length past + 1; frames = m'.page_frame; fault = m'.replace } ∷ rest.0,
          rest.1,
        ))
cons-Runs refs none h v s r = r
cons-Runs {past} {p} refs {m} {m'} (some out) h v s r = record {
  answers = (refl, s.resident, r.answers);
  counted = omega (arith, r.counted, s.counted);
  bounded = ground (arith, r.bounded);
  compulsory =
      ground (arith, r.compulsory, s.flagged, contains-IsSeen past m.page_frame p h v.seen);
}

step-Runs :
    {n : ℕ} {past : List ℤ} {p : ℤ} (refs : List ℤ) {m : Memory} (r : Option Memory)
    (rest : Memory → Option (List Row × Memory))
    → is_negative p ≡ false
    → IsValid n past m
    → Serves n past p m r
    → ((m' : Memory) → IsValid n (p ∷ past) m' → Runs (p ∷ past) refs m' (rest m'))
    → Runs past (p ∷ refs) m (
        r >>= λ m'. rest m' >>= λ out. some (
          record { time = length past + 1; frames = m'.page_frame; fault = m'.replace } ∷ out.0,
          out.1,
        ))
step-Runs refs none rest h v s k = s
step-Runs refs (some m') rest h v s k = cons-Runs refs (rest m') h v s (k m' s.valid)

module _ (n : ℕ) (step : Step)
    (serves : (past : List ℤ) (p : ℤ) (future : List ℤ) (m : Memory)
      → length past ≤ 99
      → IsValid n past m
      → is_negative p ≡ false
      → Serves n past p m (step m past p future)) where
  simulate-Runs :
      (past refs : List ℤ) (m : Memory)
      → length past + length refs ≤ 99
      → ArePages refs
      → IsValid n past m
      → Runs past refs m (simulate step past refs m)
  unfolding simulate
  simulate-Runs past [] m h k v = record {
    answers = tt;
    counted = omega arith;
    bounded = omega arith;
    compulsory = omega arith;
  }
  simulate-Runs past (p ∷ refs) m h k v =
      step-Runs refs (step m past p refs) (simulate step (p ∷ past) refs) k.0 v
        (serves past p refs m (omega arith) v k.0)
        (λ m' v'. simulate-Runs (p ∷ past) refs m' (omega arith) k.1 v')

-- A reference under any of the four methods is served, in a valid state with at most 99 references
-- before it: no array is accessed out of range, the state is valid again, the page is in a frame, and
-- a fault is counted exactly if the page was in no frame.
pub step_of-Serves :
    (method : Method) (n : ℕ) (past : List ℤ) (p : ℤ) (future : List ℤ) (m : Memory)
    → length past ≤ 99
    → IsValid n past m
    → is_negative p ≡ false
    → Serves n past p m (step_of method m past p future)
unfolding step_of
step_of-Serves opt n past p future m h v k = opt_step-Serves p future m v k
step_of-Serves fifo n past p future m h v k = fifo_step-Serves p future m v k
step_of-Serves lru n past p future m h v k = lru_step-Serves p future m v h k
step_of-Serves second_chance n past p future m h v k = chance_step-Serves p m v future k

run-Runs :
    (method : Method) (n : ℕ) (refs : List ℤ)
    → 0 < n
    → length refs ≤ 31
    → ArePages refs
    → Runs [] refs (blank n) (run method n refs)
unfolding run
run-Runs method n refs h l k =
    simulate-Runs n (step_of method) (step_of-Serves method n) [] refs (blank n) (omega arith) k
      (blank-IsValid n h)

Runs-some :
    (refs : List ℤ) (n : ℕ) (out : Option (List Row × Memory))
    → Runs [] refs (blank n) out
    → (rows : List Row) × (m : Memory) × (out ≡ some (rows, m))
      × Answers 0 refs rows
      × (m.page_fault ≡ marked rows)
      × (first_uses [] refs ≤ marked rows)
      × (marked rows ≤ length refs)
unfolding blank
Runs-some refs n none r = absurd r
Runs-some refs n (some (rows, m)) r =
    (rows, m, refl, r.answers, omega (arith, r.counted), r.compulsory, r.bounded)

-- With a positive number of frames and at most 31 references (the length of `page_reference`), all
-- of them not negative, a run of any of the four methods accesses no array out of range and prints a
-- row for each reference, numbered from 1, with the page referenced in a frame. The number of page
-- faults that it prints is the number of rows marked `F`. That is at most the number of references,
-- and at least the number of references to a page that no earlier reference names.
pub run_total :
    (method : Method) (n : ℕ) (refs : List ℤ)
    → 0 < n
    → length refs ≤ 31
    → ArePages refs
    → (rows : List Row) × (m : Memory) × (run method n refs ≡ some (rows, m))
      × Answers 0 refs rows
      × (m.page_fault ≡ marked rows)
      × (first_uses [] refs ≤ marked rows)
      × (marked rows ≤ length refs)
run_total method n refs h l k = Runs-some refs n (run method n refs) (run-Runs method n refs h l k)
