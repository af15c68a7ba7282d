-- ===== src/Crossroad/Prompt/Complete.antt =====
-- Assignment_6/program.c from its launch to the end, in a run where no signal is lost.
use ssu_operating_system.Base.{
  ℕ, zero, suc, ◌*◌, ◌≤◌, ◌<◌, ◌≡◌, refl, true, false, inl, inr, ◌≢◌, ◌⊎◌, Option, none, some, List,
  [], ◌==◌, arith, Bool-cases, subst, sym, ◌∙◌, some_eq, get_elem?, length, replicate,
}
use ssu_operating_system.Crossroad.{
  Point, p1, p2, p3, p4, update, asleep, awake, gone, in_end, over, System, starts, launch,
}
use ssu_operating_system.Crossroad.Invariant.{same_refl}
use ssu_operating_system.Crossroad.Count.{pending, counted}
use ssu_operating_system.Crossroad.Measure.{number_of_vehicles, rounds_left}
use ssu_operating_system.Crossroad.Prompt.{
  PromptStep, PromptReaches, prompt_here, prompt_then, prompt_step, prompt_reaches, IsPacked,
  IsLively,
}
use ssu_operating_system.Crossroad.Prompt.Heard.{woken-pending, wake-asleep, woken-gone}
use ssu_operating_system.Crossroad.Safety.{launched_jobs, launched_jobs-Quiet, launch-IsOrderly}
use ssu_operating_system.Crossroad.Waiting.{is_from}
use ssu_operating_system.Crossroad.Arrivals.{starts-drop}
use ssu_operating_system.Crossroad.Finish.{launch-over}
use ssu_operating_system.Crossroad.Measure.{left_to_do}
use ssu_operating_system.Crossroad.Ending.{Step-less}
use ssu_operating_system.Crossroad.Prompt.Arrival.{IsBlank, IsPacked-next, number-drop-some}
use ssu_operating_system.Crossroad.Prompt.Progress.{GoesOn, progress, PromptStep-GoesOn}

replicate-IsBlank : (n m : ℕ) → IsBlank m (replicate n none)
replicate-IsBlank zero m x k l e = cc
replicate-IsBlank (suc n) m zero k l e = cc
replicate-IsBlank (suc n) m (suc x) k l e = replicate-IsBlank n 0 x k (omega arith) e

replicate-starts : (i : Point) (n : ℕ) → starts i (replicate n none) ≡ 0
unfolding starts
replicate-starts i zero = refl
replicate-starts i (suc n) = replicate-starts i n

launched-gone :
    (vehicles : List (Option Point)) (i : Point)
    → launched_jobs vehicles i ≡ gone
    → (starts i vehicles == 0) ≡ true
launched-gone vehicles i e = elim (Bool-cases (starts i vehicles == 0)) [
  | inl zero_of_them ↦ zero_of_them
  | inr some_of_them ↦ absurd (asleep-gone (rw some_of_them at e))
]
  where
    asleep-gone : asleep ≢ gone
    asleep-gone q = cc

module _ (vehicles : List (Option Point)) (v : Point) (whole : length vehicles ≡ 20)
    (first : get_elem? vehicles 0 ≡ some (some v)) (packed : IsPacked vehicles)
    (few : number_of_vehicles vehicles ≤ 9) where
  abbrev starting : Point → ℕ
  starting i = starts i vehicles

  first_asleep : launched_jobs vehicles v ≡ asleep
  first_asleep = ground (arith, starts-drop v vehicles 0 (some v) first, same_refl v)

  -- What `main` leaves: the thread of the first vehicle has been signalled.
  abbrev launched : System
  launched = record {
    road = record {
      start_point_list = vehicles;
      list_index = 1;
      waiting_list = replicate 20 none;
      waiting_index = 0;
      passed_list = [];
      p_count = starting;
      process = λ i. 0;
      job_count = λ i. 0;
      place = none;
      where_temp = none;
      temp = false;
      finish = λ i. starts i vehicles == 0;
      tick = 1;
    };
    job0 = in_end;
    jobs = update (launched_jobs vehicles) v awake;
  }

  launch-launched : launch vehicles ≡ some launched
  unfolding launch
  launch-launched = rw (first, wake-asleep v (launched_jobs vehicles) first_asleep) refl

  launched-pending :
      (i : Point) → pending launched.jobs launched.road.process i ≡ is_from i (some v)
  launched-pending i =
      woken-pending v (launched_jobs vehicles) (λ j. 0) i (launched_jobs-Quiet vehicles)

  -- Every vehicle has its two rounds before it.
  launched-rounds :
      (i : Point)
      → (counted launched.road launched.jobs i ≡ starting i)
        × (rounds_left launched.road launched.jobs i ≡ 2 * starting i)
  launched-rounds i =
      let taken = starts-drop i vehicles 0 (some v) first in
      let nobody = replicate-starts i 20 in
      (
        omega (arith, taken, nobody, launched-pending i),
        omega (arith, taken, nobody, launched-pending i),
      )

  launched-IsLively : IsLively starting launched
  launched-IsLively = record {
    orderly = launch-IsOrderly vehicles launched launch-launched;
    all_counted = λ i. (launched-rounds i).0;
    counts = λ i. refl;
    finished = λ i. ground arith;
    ended = λ i e. launched-gone vehicles i (woken-gone v i (launched_jobs vehicles) e);
    called = (v, rw (same_refl v) refl);
    blank = replicate-IsBlank 20 0;
    room = omega (arith, few, number-drop-some v vehicles 0 first);
    enough = omega (
      arith,
      whole,
      few,
      (launched-rounds p1).1,
      (launched-rounds p2).1,
      (launched-rounds p3).1,
      (launched-rounds p4).1,
    );
    packed = (IsPacked-next vehicles 0 (some v) first packed).0;
  }

prompt_trans : {s t u : System} → PromptReaches s t → PromptReaches t u → PromptReaches s u
prompt_trans p prompt_here = p
prompt_trans p (prompt_then q r) = prompt_then (prompt_trans p q) r

PromptReaches-GoesOn :
    (total : Point → ℕ) {s t : System} → PromptReaches s t → GoesOn total s → GoesOn total t
PromptReaches-GoesOn total prompt_here g = g
PromptReaches-GoesOn total (prompt_then p q) g =
    PromptStep-GoesOn total q (PromptReaches-GoesOn total p g)

-- What is left to do bounds the steps to the end.
run_on :
    (total : Point → ℕ) (n : ℕ) (s : System)
    → left_to_do s < n
    → GoesOn total s
    → (t : System) × PromptReaches s t × (t.job0 ≡ over)
run_on total zero s l g = absurd (omega arith)
run_on total (suc n) s l (inl o) = (s, prompt_here, o)
run_on total (suc n) s l (inr h) = elim (progress total s (inr h)) [
  | inl o ↦ (s, prompt_here, o)
  | inr (t, q) ↦
      let (u, r, o) =
        run_on total n t (omega (arith, Step-less (prompt_step q) h.orderly, l))
          (PromptStep-GoesOn total q (inr h)) in
      (u, prompt_trans (prompt_then prompt_here q) r, o)
]

launch-GoesOn :
    (vehicles : List (Option Point)) (v : Point) (s t : System)
    → length vehicles ≡ 20
    → get_elem? vehicles 0 ≡ some (some v)
    → IsPacked vehicles
    → number_of_vehicles vehicles ≤ 9
    → launch vehicles ≡ some s
    → PromptReaches s t
    → GoesOn (λ i. starts i vehicles) t
launch-GoesOn vehicles v s t whole first packed few e p =
    PromptReaches-GoesOn (λ i. starts i vehicles) p
      (subst (GoesOn (λ i. starts i vehicles))
        (some_eq (sym (launch-launched vehicles v whole first packed few) ∙ e))
        (inr (launched-IsLively vehicles v whole first packed few)))

-- With one to nine vehicles in the 20 entries of the list of start points, and the others 0, a run in
-- which each thread is in its wait before it is signalled is never stuck: at every point of it some
-- thread can go on, without a lost signal or an access out of range, or job0 has ended.
pub launch-progress :
    (vehicles : List (Option Point)) (v : Point) (s t : System)
    → length vehicles ≡ 20
    → get_elem? vehicles 0 ≡ some (some v)
    → IsPacked vehicles
    → number_of_vehicles vehicles ≤ 9
    → launch vehicles ≡ some s
    → PromptReaches s t
    → (t.job0 ≡ over) ⊎ ((u : System) × PromptStep t u)
launch-progress vehicles v s t whole first packed few e p =
    progress (λ i. starts i vehicles) t (launch-GoesOn vehicles v s t whole first packed few e p)

-- Under the same conditions every such run goes on to one in which job0 has ended, and then the
-- vehicles of every start point have passed.
pub launch-completes :
    (vehicles : List (Option Point)) (v : Point) (s t : System)
    → length vehicles ≡ 20
    → get_elem? vehicles 0 ≡ some (some v)
    → IsPacked vehicles
    → number_of_vehicles vehicles ≤ 9
    → launch vehicles ≡ some s
    → PromptReaches s t
    → (u : System) × PromptReaches t u
      × (u.job0 ≡ over)
      × ((i : Point) → u.road.job_count i ≡ starts i vehicles)
launch-completes vehicles v s t whole first packed few e p =
    let (u, q, o) =
      run_on (λ i. starts i vehicles) (suc (left_to_do t)) t (omega arith)
        (launch-GoesOn vehicles v s t whole first packed few e p) in
    (u, q, o, λ i. (launch-over vehicles s u i e (prompt_reaches (prompt_trans p q)) o).1)
