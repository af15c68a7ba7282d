-- ===== src/Crossroad/Measure.antt =====
-- What the threads of Assignment_6/program.c have left to do, as a number, and the steps of job0 and
-- those into a wait.
use ssu_operating_system.Base.{
  ℕ, ◌+◌, ◌*◌, ◌≤◌, ◌<◌, ◌≡◌, refl, inl, inr, Option, none, some, List, arith, Bool-cases,
  Option-cases, subst, some_eq, drop, ap,
}
use ssu_operating_system.Crossroad.{
  Point, p1, p2, p3, p4, update, Road, Pc, asleep, awake, settling, gone, Manager, ready, resumed,
  before_middle, in_middle, before_end, in_end, over, System, deliver, wake, arrive, all_finished,
  signal, manage, manager_step, Step, starts, dispatch, pick, remove,
}
use ssu_operating_system.Crossroad.Invariant.{same_refl}
use ssu_operating_system.Crossroad.Order.{none-some, IsOrderly}
use ssu_operating_system.Crossroad.Arrivals.{arrive-Arrives}
use ssu_operating_system.Crossroad.Count.{pending, counted, Step-IsCounted}

abbrev pub sum_points : (Point → ℕ) → ℕ
sum_points f = f p1 + (f p2 + (f p3 + f p4))

-- The vehicles of a list of start points.
abbrev pub number_of_vehicles : List (Option Point) → ℕ
number_of_vehicles vehicles = sum_points (λ i. starts i vehicles)

-- The rounds that the vehicles of a start point have before them: two for one that has not entered,
-- one for one on the crossroad.
abbrev pub rounds_left : Road → (Point → Pc) → Point → ℕ
rounds_left r jobs i =
    r.process i
    + 2
      * (pending jobs r.process i
          + (starts i r.waiting_list + starts i (drop r.list_index r.start_point_list)))

abbrev pub is_settling : Pc → ℕ
is_settling settling = 1
is_settling asleep = 0
is_settling awake = 0
is_settling gone = 0

-- The steps of job0 before its next wait.
abbrev pub manager_left : Manager → ℕ
manager_left ready = 2
manager_left (resumed w) = 2
manager_left (before_middle w) = 1
manager_left before_end = 1
manager_left (in_middle w) = 0
manager_left in_end = 0
manager_left over = 0

abbrev pub left_to_do : System → ℕ
left_to_do s =
    5 * sum_points (rounds_left s.road s.jobs)
    + (sum_points (λ i. is_settling (s.jobs i)) + manager_left s.job0)

pub sum_points_le : (f g : Point → ℕ) → ((i : Point) → f i ≤ g i) → sum_points f ≤ sum_points g
sum_points_le f g h = omega (arith, h p1, h p2, h p3, h p4)

pub sum_points_lt :
    (f g : Point → ℕ) (v : Point)
    → ((i : Point) → f i ≤ g i)
    → f v < g v
    → sum_points f < sum_points g
sum_points_lt f g p1 h l = omega (arith, h p1, h p2, h p3, h p4)
sum_points_lt f g p2 h l = omega (arith, h p1, h p2, h p3, h p4)
sum_points_lt f g p3 h l = omega (arith, h p1, h p2, h p3, h p4)
sum_points_lt f g p4 h l = omega (arith, h p1, h p2, h p3, h p4)

-- No step brings a vehicle back.
pub Step-counted :
    {s t : System}
    → Step s t
    → IsOrderly s
    → (i : Point) → counted t.road t.jobs i ≤ counted s.road s.jobs i
Step-counted {s} {t} q h i = Step-IsCounted (counted s.road s.jobs) q h (λ j. omega arith) i

-- What a step of job0 changes: a signal ends no thread's way to its wait, and the next wait is nearer.
record Manages (s s' : System) (m : Manager) : Type 0 where
  passed : s'.road.job_count ≡ s.road.job_count
  crossing : s'.road.process ≡ s.road.process
  settling_kept : (i : Point) → is_settling (s'.jobs i) ≤ is_settling (s.jobs i)
  nearer : manager_left s'.job0 < manager_left m

pub signal-settling :
    (o : Option Point) (jobs : Point → Pc) (i : Point)
    → is_settling (signal o jobs i) ≤ is_settling (jobs i)
unfolding wake deliver
signal-settling none jobs i = omega arith
signal-settling (some v) jobs i = woken (jobs v)
  where
    woken : (pc : Pc) → is_settling (deliver pc v jobs i) ≤ is_settling (jobs i)
    woken asleep = ground arith
    woken awake = omega arith
    woken settling = omega arith
    woken gone = omega arith

dispatch-nearer :
    (o : Option Point) (found : Option (Point × ℕ)) (ks : List (Option Point))
    → manager_left (dispatch o found ks).2 ≤ 1
unfolding dispatch
dispatch-nearer none none ks = omega arith
dispatch-nearer none (some (k, x)) ks = omega arith
dispatch-nearer (some w) none ks = omega arith
dispatch-nearer (some w) (some (k, x)) ks = ground arith

manage-Manages :
    (s : System) (r : Road)
    → r.job_count ≡ s.road.job_count
    → r.process ≡ s.road.process
    → Manages s (manage s r) ready
unfolding manage
manage-Manages s r c p = elim (Bool-cases (all_finished r)) [
  | inl done ↦
      simp done (record {
        passed = c;
        crossing = p;
        settling_kept = λ i. omega arith;
        nearer = omega arith;
      })
  | inr more ↦
      let found = pick r.place r.waiting_list in
      let ks = remove found r.waiting_list in
      simp more (record {
        passed = c;
        crossing = p;
        settling_kept = signal-settling (dispatch r.place found ks).0 s.jobs;
        nearer = omega (arith, dispatch-nearer r.place found ks);
      })
]

manager-Manages : (m : Manager) (s s' : System) → manager_step s m ≡ some s' → Manages s s' m
unfolding manager_step
manager-Manages ready s s' e = elim (Option-cases (arrive s.road)) [
  | inl bad ↦ absurd (none-some (rw bad at e))
  | inr (r, came) ↦
      let w = arrive-Arrives s.road r came in
      subst (λ t. Manages s t ready) (some_eq (rw came at e))
        (manage-Manages s r w.passed w.crossing)
]
manager-Manages (resumed w) s s' e =
    subst (λ t. Manages s t (resumed w)) (some_eq e)
      (record {
        passed = refl;
        crossing = refl;
        settling_kept = signal-settling (some w) s.jobs;
        nearer = omega arith;
      })
manager-Manages (before_middle w) s s' e =
    subst (λ t. Manages s t (before_middle w)) (some_eq e)
      (record {
        passed = refl;
        crossing = refl;
        settling_kept = λ i. omega arith;
        nearer = omega arith;
      })
manager-Manages before_end s s' e =
    subst (λ t. Manages s t before_end) (some_eq e)
      (record {
        passed = refl;
        crossing = refl;
        settling_kept = λ i. omega arith;
        nearer = omega arith;
      })
manager-Manages (in_middle w) s s' e = cc
manager-Manages in_end s s' e = cc
manager-Manages over s s' e = cc

pub manager-less :
    (s s' : System)
    → manager_step s s.job0 ≡ some s'
    → ((i : Point) → counted s'.road s'.jobs i ≤ counted s.road s.jobs i)
    → left_to_do s' < left_to_do s
manager-less s s' e b =
    let h = manager-Manages s.job0 s s' e in
    omega (
      arith,
      sum_points_le (rounds_left s'.road s'.jobs) (rounds_left s.road s.jobs)
          (λ i. omega (arith, b i, ap (λ f. f i) h.passed, ap (λ f. f i) h.crossing)),
      sum_points_le (λ i. is_settling (s'.jobs i)) (λ i. is_settling (s.jobs i)) h.settling_kept,
      h.nearer,
    )

settle-settling :
    (v i : Point) (jobs : Point → Pc) → is_settling (update jobs v asleep i) ≤ is_settling (jobs i)
settle-settling v i jobs = ground arith

pub settle-less :
    (v : Point) (s : System)
    → s.jobs v ≡ settling
    → ((i : Point) → rounds_left s.road (update s.jobs v asleep) i ≤ rounds_left s.road s.jobs i)
    → left_to_do (record s { jobs = update s.jobs v asleep }) < left_to_do s
settle-less v s a b = omega (
  arith,
  sum_points_le (rounds_left s.road (update s.jobs v asleep)) (rounds_left s.road s.jobs) b,
  sum_points_lt (λ i. is_settling (update s.jobs v asleep i)) (λ i. is_settling (s.jobs i)) v
      (λ i. settle-settling v i s.jobs) (ground (arith, a, same_refl v)),
)
