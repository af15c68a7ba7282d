-- ===== src/Crossroad/Prompt.antt =====
-- The runs of Assignment_6/program.c in which each thread is in its wait before another one signals
-- it, as the `sleep(1)` of job0 means to see to.
pub mod Vehicle
pub mod Settle
pub mod Arrival
pub mod Dispatch
pub mod Heard
pub mod Round
pub mod Progress
pub mod Complete
mod Tests
use ssu_operating_system.Base.{
  ℕ, ◌+◌, ◌≤◌, ◌≡◌, Bool, true, false, ◌≢◌, Option, none, some, List, [], ◌∷◌, ◌==◌, get_elem?,
  drop, length,
}
use ssu_operating_system.Crossroad.{
  Point, update, Road, Pc, asleep, awake, settling, gone, Manager, ready, resumed, before_middle,
  in_middle, before_end, in_end, over, System, facing, job, manager_step, Step, vehicle, settle,
  manager, Reaches, here, then_step, starts,
}
use ssu_operating_system.Crossroad.Order.{IsOrderly}
use ssu_operating_system.Crossroad.Count.{counted}
use ssu_operating_system.Crossroad.Measure.{sum_points, number_of_vehicles, rounds_left}

-- job0 stands in a wait.
abbrev pub InWait : Manager → Type 0
InWait ready = ⊥
InWait (resumed w) = ⊥
InWait (before_middle w) = ⊥
InWait (in_middle w) = Unit
InWait before_end = ⊥
InWait in_end = Unit
InWait over = ⊥

-- A step that signals nobody who is on the way to a wait.
pub data PromptStep : System → System → Type 0 where
  prompt_vehicle :
      {s : System} (i : Point) → s.jobs i ≡ awake → InWait s.job0 → PromptStep s (job i s)
  prompt_settle :
      {s : System} (i : Point)
      → s.jobs i ≡ settling
      → PromptStep s (record s { jobs = update s.jobs i asleep })
  prompt_manager :
      {s s' : System}
      → ((i : Point) → s.jobs i ≢ settling)
      → manager_step s s.job0 ≡ some s'
      → PromptStep s s'

pub data PromptReaches : System → System → Type 0 where
  prompt_here : {s : System} → PromptReaches s s
  prompt_then : {s t u : System} → PromptReaches s t → PromptStep t u → PromptReaches s u

pub prompt_step : {s t : System} → PromptStep s t → Step s t
prompt_step (prompt_vehicle i a w) = vehicle i a
prompt_step (prompt_settle i a) = settle i a
prompt_step (prompt_manager n e) = manager e

pub prompt_reaches : {s t : System} → PromptReaches s t → Reaches s t
prompt_reaches prompt_here = here
prompt_reaches (prompt_then p q) = then_step (prompt_reaches p) (prompt_step q)

-- The vehicles stand before the entries that are 0.
abbrev pub IsPacked : List (Option Point) → Type 0
IsPacked [] = Unit
IsPacked (none ∷ vs) = (i : Point) → starts i vs ≡ 0
IsPacked (some v ∷ vs) = IsPacked vs

-- Whom job0 waits for has been signalled.
abbrev pub Called : Manager → (Point → Pc) → Type 0
Called ready jobs = Unit
Called (resumed w) jobs = Unit
Called (before_middle w) jobs = jobs (facing w) ≡ awake
Called (in_middle w) jobs = jobs (facing w) ≡ awake
Called before_end jobs = (v : Point) × (jobs v ≡ awake)
Called in_end jobs = (v : Point) × (jobs v ≡ awake)
Called over jobs = Unit

-- job0 is at work in a round that it has not drawn an arrival for.
abbrev pub at_work : Manager → ℕ
at_work ready = 1
at_work (resumed w) = 1
at_work (before_middle w) = 0
at_work (in_middle w) = 0
at_work before_end = 0
at_work in_end = 0
at_work over = 0

-- Between the steps of such a run: every vehicle is accounted for, a thread is at its end exactly if its
-- vehicles have passed, and the lists have room for what is left.
pub record IsLively (total : Point → ℕ) (s : System) : Type 0 where
  pub orderly : IsOrderly s
  pub all_counted : (i : Point) → counted s.road s.jobs i ≡ total i
  pub counts : (i : Point) → s.road.p_count i ≡ total i
  pub finished : (i : Point) → s.road.finish i ≡ (s.road.job_count i == total i)
  pub ended : (i : Point) → s.jobs i ≡ gone → s.road.finish i ≡ true
  pub called : Called s.job0 s.jobs
  pub blank :
      (x : ℕ) (k : Point)
      → s.road.waiting_index ≤ x
      → get_elem? s.road.waiting_list x ≢ some (some k)
  pub room :
      s.road.waiting_index + number_of_vehicles (drop s.road.list_index s.road.start_point_list)
      ≤ length s.road.waiting_list
  pub enough :
      s.road.list_index + (sum_points (rounds_left s.road s.jobs) + at_work s.job0)
      ≤ length s.road.start_point_list
  pub packed : IsPacked (drop s.road.list_index s.road.start_point_list)
