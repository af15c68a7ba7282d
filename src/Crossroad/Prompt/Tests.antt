-- ===== src/Crossroad/Prompt/Tests.antt =====
-- Concrete runs of the model of Assignment_6/program.c in which no signal is lost.
use ssu_operating_system.Base.{
  ◌≤◌, ◌≡◌, refl, false, ◌⊎◌, Option, none, some, List, [], ◌∷◌, ◌==◌, if◌then◌else◌, replicate,
  arith,
}
use ssu_operating_system.Crossroad.{
  Point, p1, p2, p3, asleep, gone, in_end, over, System, starts, signal, wake, deliver, launch, job,
  manager_step,
}
use ssu_operating_system.Crossroad.Measure.{number_of_vehicles}
use ssu_operating_system.Crossroad.Prompt.{
  PromptStep, prompt_vehicle, PromptReaches, prompt_here, prompt_then, IsPacked,
}
use ssu_operating_system.Crossroad.Prompt.Complete.{launch-progress, launch-completes}

-- The 20 entries of the program, with three vehicles.
abbrev twenty : List (Option Point)
twenty = some p1 ∷ some p3 ∷ some p2 ∷ replicate 17 none

abbrev start_three : System
start_three = record {
  road = record {
    start_point_list = twenty;
    list_index = 1;
    waiting_list = replicate 20 none;
    waiting_index = 0;
    passed_list = [];
    p_count = λ i. starts i twenty;
    process = λ i. 0;
    job_count = λ i. 0;
    place = none;
    where_temp = none;
    temp = false;
    finish = λ i. starts i twenty == 0;
    tick = 1;
  };
  job0 = in_end;
  jobs = signal (some p1) (λ i. if starts i twenty == 0 then gone else asleep);
}

start_three-launch : launch twenty ≡ some start_three
unfolding launch
start_three-launch = refl

twenty-IsPacked : IsPacked twenty
unfolding starts
twenty-IsPacked = λ i. refl

entered-PromptReaches : PromptReaches start_three (job p1 start_three)
unfolding wake deliver starts
entered-PromptReaches = prompt_then prompt_here (prompt_vehicle p1 refl tt)

few_vehicles : number_of_vehicles twenty ≤ 9
unfolding starts
few_vehicles = omega arith

launch-progress_example :
    ((job p1 start_three).job0 ≡ over) ⊎ ((u : System) × PromptStep (job p1 start_three) u)
launch-progress_example =
    launch-progress twenty p1 start_three (job p1 start_three) refl refl twenty-IsPacked
      few_vehicles start_three-launch entered-PromptReaches

launch-completes_example :
    (u : System) × PromptReaches (job p1 start_three) u
    × (u.job0 ≡ over)
    × ((i : Point) → u.road.job_count i ≡ starts i twenty)
launch-completes_example =
    launch-completes twenty p1 start_three (job p1 start_three) refl refl twenty-IsPacked
      few_vehicles start_three-launch entered-PromptReaches

-- Without a vehicle nobody is ever signalled, and job0 waits for ever.
abbrev no_vehicle : List (Option Point)
no_vehicle = replicate 20 none

abbrev start_none : System
start_none = record {
  road = record {
    start_point_list = no_vehicle;
    list_index = 1;
    waiting_list = replicate 20 none;
    waiting_index = 0;
    passed_list = [];
    p_count = λ i. starts i no_vehicle;
    process = λ i. 0;
    job_count = λ i. 0;
    place = none;
    where_temp = none;
    temp = false;
    finish = λ i. starts i no_vehicle == 0;
    tick = 1;
  };
  job0 = in_end;
  jobs = λ i. if starts i no_vehicle == 0 then gone else asleep;
}

start_none-stuck :
    (launch no_vehicle ≡ some start_none)
    × (manager_step start_none start_none.job0 ≡ none)
    × ((i : Point) → start_none.jobs i ≡ gone)
unfolding launch manager_step starts
start_none-stuck = (refl, refl, λ i. refl)
