-- ===== src/Crossroad/Tests.antt =====
-- Concrete steps of the model of Assignment_6/program.c.
use ssu_operating_system.Base.{
  ◌+◌, ◌≤◌, ◌≡◌, refl, false, ◌⊎◌, ◌≢◌, Option, none, some, List, [], ◌∷◌, ◌==◌, if◌then◌else◌,
  replicate,
}
use ssu_operating_system.Crossroad.{
  Road, Point, p1, p2, p3, update, awake, asleep, gone, ready, in_end, over, System, starts, signal,
  wake, deliver, launch, job, enter_or_pass, is_last, wake_manager, Reaches, here, then_step,
  vehicle, settle, manager, manager_step, arrive, queue_up, restore_place, manage, pick,
  find_facing, find_first, remove, dispatch,
}
use ssu_operating_system.Crossroad.Count.{launch-passed}
use ssu_operating_system.Crossroad.Ending.{steps, launch-steps}
use ssu_operating_system.Crossroad.Finish.{launch-over}
use ssu_operating_system.Crossroad.Safety.{launch-exclusion, launch-turns}
use ssu_operating_system.Crossroad.Waiting.{is_from}
use ssu_operating_system.Crossroad.Called.{newly, MayBeCalled, manage-starts}

abbrev vehicles : List (Option Point)
vehicles = some p1 ∷ some p3 ∷ some p2 ∷ none ∷ []

abbrev first : System
first = record {
  road = record {
    start_point_list = vehicles;
    list_index = 1;
    waiting_list = replicate 20 none;
    waiting_index = 0;
    passed_list = [];
    p_count = λ i. starts i vehicles;
    process = λ i. 0;
    job_count = λ i. 0;
    place = none;
    where_temp = none;
    temp = false;
    finish = λ i. starts i vehicles == 0;
    tick = 1;
  };
  job0 = in_end;
  jobs = signal (some p1) (λ i. if starts i vehicles == 0 then gone else asleep);
}

first-launch : launch vehicles ≡ some first
unfolding launch
first-launch = refl

first-awake : first.jobs p1 ≡ awake
unfolding wake deliver starts
first-awake = refl

second-Reaches : Reaches first (job p1 first)
second-Reaches = then_step here (vehicle p1 first-awake)

launch-turns_example : (p1 ≡ p1) × (in_end ≢ ready)
launch-turns_example =
    launch-turns vehicles first first p1 p1 first-launch here first-awake first-awake

abbrev waiting : List (Option Point)
waiting = none ∷ some p2 ∷ some p3 ∷ none ∷ []

-- The first vehicle is on the crossroad; the third faces it, and the second waits before it.
abbrev crowded : Road
crowded = record first.road { place = some p1; waiting_list = waiting }

manage-starts_example :
    (target : Option Point) × ((manage first crowded).jobs ≡ signal target first.jobs)
    × MayBeCalled (some p1) target
    × ((i : Point)
        → starts i waiting
          ≡ is_from i (newly (some p1) target) + starts i (manage first crowded).road.waiting_list)
unfolding starts
manage-starts_example = manage-starts first crowded refl

launch-passed_example : (job p1 first).road.job_count p1 + (job p1 first).road.process p1 ≤ 1
unfolding starts
launch-passed_example = launch-passed vehicles first (job p1 first) p1 first-launch second-Reaches

-- A run with one vehicle, to the end.
abbrev one_vehicle : List (Option Point)
one_vehicle = some p1 ∷ none ∷ none ∷ []

abbrev start_one : System
start_one = record {
  road = record {
    start_point_list = one_vehicle;
    list_index = 1;
    waiting_list = replicate 20 none;
    waiting_index = 0;
    passed_list = [];
    p_count = λ i. starts i one_vehicle;
    process = λ i. 0;
    job_count = λ i. 0;
    place = none;
    where_temp = none;
    temp = false;
    finish = λ i. starts i one_vehicle == 0;
    tick = 1;
  };
  job0 = in_end;
  jobs = signal (some p1) (λ i. if starts i one_vehicle == 0 then gone else asleep);
}

abbrev managed : System → System
managed s = elim (manager_step s s.job0) [ none ↦ s | some t ↦ t ]

abbrev settled : System → System
settled s = record s { jobs = update s.jobs p1 asleep }

abbrev waiting_again : System
waiting_again = settled (job p1 start_one)

abbrev last_turn : System
last_turn = managed (managed waiting_again)

abbrev at_end : System
at_end = managed (job p1 last_turn)

start_one-launch : launch one_vehicle ≡ some start_one
unfolding launch
start_one-launch = refl

at_end-Reaches : Reaches start_one at_end
unfolding wake deliver starts job enter_or_pass is_last wake_manager manager_step arrive queue_up
    restore_place manage pick find_facing find_first remove dispatch
at_end-Reaches =
    then_step
      (then_step
        (then_step
          (then_step (then_step (then_step here (vehicle p1 refl)) (settle p1 refl))
            (manager {s = waiting_again} {s' = managed waiting_again} refl))
          (manager {s = managed waiting_again} {s' = last_turn} refl))
        (vehicle p1 refl))
      (manager {s = job p1 last_turn} {s' = at_end} refl)

at_end-over : at_end.job0 ≡ over
unfolding wake deliver starts job enter_or_pass is_last wake_manager manager_step arrive queue_up
    restore_place manage pick find_facing find_first remove dispatch
at_end-over = refl

launch-over_example :
    (at_end.jobs p1 ≡ gone)
    × (at_end.road.job_count p1 ≡ starts p1 one_vehicle)
    × (at_end.road.p_count p1 ≡ at_end.road.job_count p1)
launch-over_example =
    launch-over one_vehicle start_one at_end p1 start_one-launch at_end-Reaches at_end-over

-- job0 goes on before the vehicle waits: its signal is lost, and then both wait.
abbrev stuck : System
stuck = settled (managed (managed (job p1 start_one)))

stuck-Reaches : Reaches start_one stuck
unfolding wake deliver starts job enter_or_pass is_last wake_manager manager_step arrive queue_up
    restore_place manage pick find_facing find_first remove dispatch
stuck-Reaches =
    then_step
      (then_step
        (then_step (then_step here (vehicle p1 refl))
          (manager {s = job p1 start_one} {s' = managed (job p1 start_one)} refl))
        (manager {s = managed (job p1 start_one)} {s' = managed (managed (job p1 start_one))} refl))
      (settle p1 refl)

stuck_waits :
    (manager_step stuck stuck.job0 ≡ none)
    × (stuck.jobs p1 ≡ asleep)
    × (stuck.road.finish p1 ≡ false)
unfolding wake deliver starts job enter_or_pass is_last wake_manager manager_step arrive queue_up
    restore_place manage pick find_facing find_first remove dispatch
stuck_waits = (refl, refl, refl)

-- The second vehicle faces the first and joins it.
abbrev joined : System
joined = job p3 (managed (managed (job p1 first)))

joined-Reaches : Reaches first joined
unfolding wake deliver starts job enter_or_pass is_last wake_manager manager_step arrive queue_up
    restore_place manage pick find_facing find_first remove dispatch
joined-Reaches =
    then_step
      (then_step
        (then_step second-Reaches (manager {s = job p1 first} {s' = managed (job p1 first)} refl))
        (manager {s = managed (job p1 first)} {s' = managed (managed (job p1 first))} refl))
      (vehicle p3 refl)

joined_both : (joined.road.process p1 ≡ 1) × (joined.road.process p3 ≡ 1)
unfolding wake deliver starts job enter_or_pass is_last wake_manager manager_step arrive queue_up
    restore_place manage pick find_facing find_first remove dispatch
joined_both = (refl, refl)

launch-exclusion_example : (p1 ≡ p3) ⊎ (p3 ≡ p3)
launch-exclusion_example =
    launch-exclusion vehicles first joined p1 p3 first-launch joined-Reaches joined_both.0
      joined_both.1

launch-steps_example : steps joined-Reaches ≤ 30
unfolding starts
launch-steps_example = launch-steps vehicles first joined first-launch joined-Reaches
