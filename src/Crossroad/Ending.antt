-- ===== src/Crossroad/Ending.antt =====
-- How long Assignment_6/program.c runs: what is left to do gets less with each step of a thread, in
-- any order of the steps and with signals lost or not.
use ssu_operating_system.Base.{
  ℕ, ◌+◌, ◌*◌, ◌≤◌, ◌<◌, ◌≡◌, ◌==◌, ==_iff, refl, inl, inr, Option, some, List, if◌then◌else◌,
  arith, Bool-cases, Option-cases, subst, some_eq, get_elem?,
}
use ssu_operating_system.Crossroad.{
  Point, p1, p2, p3, p4, same, update, Road, Pc, settling, gone, Manager, ready, resumed,
  before_middle, in_middle, before_end, in_end, over, System, enter_or_pass, is_last, wake_manager,
  job, Step, vehicle, settle, manager, Reaches, here, then_step, launch, starts,
}
use ssu_operating_system.Crossroad.Invariant.{
  same-eq, same_refl, enter_or_pass-enters, enter_or_pass-passes,
}
use ssu_operating_system.Crossroad.Order.{none-some, IsOrderly, Reaches-IsOrderly}
use ssu_operating_system.Crossroad.Safety.{
  launched_jobs, IsSafe-facing, Holds-IsSafe, launch-IsOrderly,
}
use ssu_operating_system.Crossroad.Count.{counted, launch-IsCounted}
use ssu_operating_system.Crossroad.Measure.{
  sum_points, number_of_vehicles, rounds_left, is_settling, manager_left, left_to_do, sum_points_le,
  sum_points_lt, Step-counted, signal-settling, manager-less, settle-less,
}

wake_manager-left : (m : Manager) → manager_left (wake_manager m) ≤ 2 + manager_left m
unfolding wake_manager
wake_manager-left ready = omega arith
wake_manager-left (resumed w) = omega arith
wake_manager-left (before_middle w) = omega arith
wake_manager-left (in_middle w) = omega arith
wake_manager-left before_end = omega arith
wake_manager-left in_end = omega arith
wake_manager-left over = omega arith

-- The rounds that the vehicles of a start point have behind them.
abbrev rounds_done : Road → Point → ℕ
rounds_done r i = 2 * r.job_count i + r.process i

enter_or_pass-rounds :
    (v : Point) (r : Road)
    → r.process v ≤ 1
    → (i : Point)
    → rounds_done (enter_or_pass v r) i ≡ rounds_done r i + (if same v i then 1 else 0)
enter_or_pass-rounds v r l i = elim (Bool-cases (r.process v == 0)) [
  | inl enters ↦
      let e : r.process v ≡ 0 = (==_iff _ _).0 enters in
      elim (Bool-cases (same v i)) [
        | inl own ↦
            let n : r.process i ≡ 0 = subst (λ j. r.process j ≡ 0) (same-eq v i own) e in
            rw (enter_or_pass-enters v r e, own, n) (omega arith)
        | inr other ↦ rw (enter_or_pass-enters v r e, other) (omega arith)
      ]
  | inr crossing ↦
      let e : r.process v ≡ 1 = ground (arith, crossing) in
      elim (Bool-cases (same v i)) [
        | inl own ↦
            let n : r.process i ≡ 1 = subst (λ j. r.process j ≡ 1) (same-eq v i own) e in
            rw (enter_or_pass-passes v r e, own, n, same-eq v i own) (omega arith)
        | inr other ↦ rw (enter_or_pass-passes v r e, other) (omega arith)
      ]
]

job-rounds_done :
    (v : Point) (s : System)
    → s.road.process v ≤ 1
    → (i : Point)
    → rounds_done (job v s).road i ≡ rounds_done s.road i + (if same v i then 1 else 0)
unfolding job
job-rounds_done v s l i = elim (Bool-cases (is_last v (enter_or_pass v s.road))) [
  | inl last ↦ rw last (enter_or_pass-rounds v s.road l i)
  | inr more ↦ rw more (enter_or_pass-rounds v s.road l i)
]

-- A vehicle has a round less before it after its round, and leaves the other vehicles alone.
pub job-rounds_left :
    (v : Point) (s : System)
    → s.road.process v ≤ 1
    → ((i : Point) → counted (job v s).road (job v s).jobs i ≤ counted s.road s.jobs i)
    → (i : Point)
    → rounds_left (job v s).road (job v s).jobs i + (if same v i then 1 else 0)
      ≤ rounds_left s.road s.jobs i
job-rounds_left v s l b i = omega (arith, b i, job-rounds_done v s l i)

job-settling :
    (v : Point) (s : System)
    → sum_points (λ i. is_settling ((job v s).jobs i))
      ≤ sum_points (λ i. is_settling (s.jobs i)) + 1
unfolding job
job-settling v s = elim (Bool-cases (is_last v (enter_or_pass v s.road))) [
  | inl last ↦ rw last (one_more v gone (omega arith))
  | inr more ↦ rw more (one_more v settling (omega arith))
]
  where
    one_more :
        (u : Point) (pc : Pc)
        → is_settling pc ≤ 1
        → sum_points (λ i. is_settling (update s.jobs u pc i))
          ≤ sum_points (λ i. is_settling (s.jobs i)) + 1
    one_more p1 pc l = omega (arith, l)
    one_more p2 pc l = omega (arith, l)
    one_more p3 pc l = omega (arith, l)
    one_more p4 pc l = omega (arith, l)

pub job-manager : (v : Point) (s : System) → (job v s).job0 ≡ wake_manager s.job0
unfolding job
job-manager v s = ground arith

job-less :
    (v : Point) (s : System)
    → s.road.process v ≤ 1
    → ((i : Point) → counted (job v s).road (job v s).jobs i ≤ counted s.road s.jobs i)
    → left_to_do (job v s) < left_to_do s
job-less v s l b =
    let rounds = job-rounds_left v s l b in
    rw (job-manager v s) (
      omega (
        arith,
        sum_points_lt (rounds_left (job v s).road (job v s).jobs) (rounds_left s.road s.jobs) v
            (λ i. omega (arith, rounds i)) (ground (arith, rounds v, same_refl v)),
        job-settling v s,
        wake_manager-left s.job0,
      ))

-- Each step, of whatever thread, leaves less to do.
pub Step-less : {s t : System} → Step s t → IsOrderly s → left_to_do t < left_to_do s
Step-less {s} (vehicle v a) h =
    job-less v s (IsSafe-facing s.road.process (Holds-IsSafe s.job0 s.road s.jobs h) v v).0
      (Step-counted (vehicle v a) h)
Step-less {s} (settle v a) h =
    settle-less v s a (λ i. omega (arith, Step-counted (settle {s = s} v a) h i))
Step-less {s} {t} (manager e) h = manager-less s t e (Step-counted (manager {s = s} {s' = t} e) h)

-- The number of steps of an interleaving.
pub steps : {s t : System} → Reaches s t → ℕ
steps here = 0
steps (then_step p q) = steps p + 1

steps-left_to_do :
    {s t : System} (p : Reaches s t) → IsOrderly s → steps p + left_to_do t ≤ left_to_do s
unfolding steps
steps-left_to_do here h = omega arith
steps-left_to_do (then_step p q) h =
    omega (arith, steps-left_to_do p h, Step-less q (Reaches-IsOrderly p h))

launched-settling :
    (vehicles : List (Option Point)) (i : Point) → is_settling (launched_jobs vehicles i) ≡ 0
launched-settling vehicles i = ground arith

launch-at_rest :
    (vehicles : List (Option Point)) (s : System)
    → launch vehicles ≡ some s
    → (i : Point)
    → (s.road.process i ≡ 0) × (is_settling (s.jobs i) ≤ 0) × (manager_left s.job0 ≡ 0)
unfolding launch
launch-at_rest vehicles s e i = elim (Option-cases (get_elem? vehicles 0)) [
  | inl empty ↦ absurd (none-some (rw empty at e))
  | inr (start, got) ↦
      subst (λ t. (t.road.process i ≡ 0) × (is_settling (t.jobs i) ≤ 0) × (manager_left t.job0 ≡ 0))
        (some_eq (rw got at e))
        (
          refl,
          omega (
            arith,
            signal-settling start (launched_jobs vehicles) i,
            launched-settling vehicles i,
          ),
          refl,
        )
]

-- At the start every vehicle has two rounds before it.
launch-left_to_do :
    (vehicles : List (Option Point)) (s : System)
    → launch vehicles ≡ some s
    → left_to_do s ≤ 10 * number_of_vehicles vehicles
launch-left_to_do vehicles s e =
    let rest = launch-at_rest vehicles s e in
    let bound = launch-IsCounted vehicles s e in
    omega (
      arith,
      sum_points_le (rounds_left s.road s.jobs) (λ i. 2 * starts i vehicles)
          (λ i. omega (arith, bound i, (rest i).0)),
      sum_points_le (λ i. is_settling (s.jobs i)) (λ i. 0) (λ i. (rest i).1),
      (rest p1).2,
    )

-- Whatever the order of the threads, with signals lost or not, the program takes at most ten steps for
-- each vehicle of the list of start points: no thread goes on for ever.
pub launch-steps :
    (vehicles : List (Option Point)) (s t : System)
    → launch vehicles ≡ some s
    → (p : Reaches s t) → steps p ≤ 10 * number_of_vehicles vehicles
launch-steps vehicles s t e p =
    omega
      (arith, steps-left_to_do p (launch-IsOrderly vehicles s e), launch-left_to_do vehicles s e)
