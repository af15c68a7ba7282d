-- ===== src/Crossroad.antt =====
-- Assignment_6/program.c: a thread for each start point of a crossroad and one that manages them. 0
-- for a start point, a key or `where` is `none`. What a thread does between two waits is one step:
-- the waits pass the turn on, so that no other thread is at work meanwhile. A signal to a thread that
-- does not wait is lost, since every thread has a mutex of its own.
pub mod Invariant
pub mod Order
pub mod Safety
pub mod Waiting
pub mod Called
pub mod Arrivals
pub mod Count
pub mod Passed
pub mod Ended
pub mod Measure
pub mod Ending
pub mod Finish
pub mod Prompt
mod Tests
use ssu_operating_system.Base.{
  ℕ, suc, ◌+◌, Bool, true, false, ◌&&◌, Option, none, some, List, [], ◌∷◌, ◌++◌, ◌==◌, ltb,
  if◌then◌else◌, ◌>>=◌, get_elem?, length, set, replicate, ◌≡◌,
}

pub data Point : Type 0 where
  p1 p2 p3 p4 : Point

abbrev pub facing : Point → Point
facing p1 = p3
facing p2 = p4
facing p3 = p1
facing p4 = p2

abbrev pub same : Point → Point → Bool
same p1 p1 = true
same p2 p2 = true
same p3 p3 = true
same p4 p4 = true
same _ _ = false

-- `f[i] = v` of an array with an entry for each start point.
abbrev pub update {ℓ} : {A : Type ℓ} → (Point → A) → Point → A → Point → A
update f i v j = if same i j then v else f j

-- The shared variables, with job0's `temp`. `place` is `where`, and `passed_list` has the entries
-- below `passed_index`.
pub record Road : Type 0 where
  pub start_point_list : List (Option Point)
  pub list_index : ℕ
  pub waiting_list : List (Option Point)
  pub waiting_index : ℕ
  pub passed_list : List Point
  pub p_count : Point → ℕ
  pub process : Point → ℕ
  pub job_count : Point → ℕ
  pub place : Option Point
  pub where_temp : Option Point
  pub temp : Bool
  pub finish : Point → Bool
  pub tick : ℕ

-- Where job1, …, job4 stand: in `pthread_cond_wait`, signalled, behind the signal to `cond0` and
-- before the wait, or at the end.
pub data Pc : Type 0 where
  asleep awake settling gone : Pc

-- Where job0 stands: at the start of a round; woken from the wait in the branch of `where`; behind a
-- signal and before the wait in that branch, or at the end of the round; in either wait; at the end.
pub data Manager : Type 0 where
  ready : Manager
  resumed before_middle in_middle : Point → Manager
  before_end in_end over : Manager

pub record System : Type 0 where
  pub road : Road
  pub job0 : Manager
  pub jobs : Point → Pc

-- `process[i]++`, and the branches on it.
pub enter_or_pass : Point → Road → Road
enter_or_pass i r =
    let n = r.process i + 1 in
    if n == 1
    then record r { process = update r.process i n; place = some i }
    else if n == 2
    then record r {
      passed_list = r.passed_list ++ (i ∷ []);
      job_count = update r.job_count i (r.job_count i + 1);
      process = update r.process i 0;
      place = none;
    }
    else record r { process = update r.process i n }

pub is_last : Point → Road → Bool
is_last i r = r.job_count i == r.p_count i

-- A signal to `cond0`.
pub wake_manager : Manager → Manager
wake_manager (in_middle i) = resumed i
wake_manager in_end = ready
wake_manager (resumed i) = resumed i
wake_manager (before_middle i) = before_middle i
wake_manager ready = ready
wake_manager before_end = before_end
wake_manager over = over

-- A signal to `cond1`, …, `cond4`.
pub deliver : Pc → Point → (Point → Pc) → Point → Pc
deliver asleep i jobs = update jobs i awake
deliver awake i jobs = jobs
deliver settling i jobs = jobs
deliver gone i jobs = jobs

pub wake : Point → (Point → Pc) → Point → Pc
unfolding deliver
wake i jobs = deliver (jobs i) i jobs

-- A round of job1, …, job4, up to the signal to `cond0`.
pub job : Point → System → System
unfolding enter_or_pass is_last wake_manager
job i s =
    let r = enter_or_pass i s.road in
    if is_last i r
    then record {
      road = record r { finish = update r.finish i true };
      job0 = wake_manager s.job0;
      jobs = update s.jobs i gone;
    }
    else record { road = r; job0 = wake_manager s.job0; jobs = update s.jobs i settling }

-- The start of job0's round: the list of those passed is emptied, the next vehicle arrives, and
-- `where` is taken from `where_temp`. `none` is an access out of range.
pub queue_up : Option Point → Road → Option Road
queue_up none r = some r
queue_up (some v) r =
    if ltb r.waiting_index (length r.waiting_list)
    then some (record r {
      waiting_list = set r.waiting_list r.waiting_index (some v);
      waiting_index = r.waiting_index + 1;
    })
    else none

pub restore_place : Road → Road
restore_place r = if r.temp then record r { place = r.where_temp; temp = false } else r

pub arrive : Road → Option Road
unfolding queue_up restore_place
arrive r = do
  start ← get_elem? r.start_point_list r.list_index
  r' ←
      queue_up start
        (record r { passed_list = []; list_index = r.list_index + 1; tick = r.tick + 1 })
  some (restore_place r')

-- The first loop over `waiting_list`, from index `i` on: the key and its index.
pub find_facing : Point → List (Option Point) → ℕ → Option (Point × ℕ)
find_facing w [] i = none
find_facing w (none ∷ ks) i = find_facing w ks (suc i)
find_facing w (some k ∷ ks) i = if same (facing w) k then some (k, i) else find_facing w ks (suc i)

-- The second loop.
pub find_first : List (Option Point) → ℕ → Option (Point × ℕ)
find_first [] i = none
find_first (none ∷ ks) i = find_first ks (suc i)
find_first (some k ∷ ks) i = some (k, i)

pub pick : Option Point → List (Option Point) → Option (Point × ℕ)
unfolding find_facing find_first
pick none ks = find_first ks 0
pick (some w) ks = elim (find_facing w ks 0) [ some found ↦ some found | none ↦ find_first ks 0 ]

-- `waiting_list[i] = 0` for the key found.
pub remove : Option (Point × ℕ) → List (Option Point) → List (Option Point)
remove none ks = ks
remove (some (k, i)) ks = set ks i none

-- `switch (where)`: whom job0 signals, the list, and where it goes on.
pub dispatch :
    Option Point
    → Option (Point × ℕ)
    → List (Option Point)
    → Option Point × List (Option Point) × Manager
dispatch none none ks = (none, ks, before_end)
dispatch none (some (k, i)) ks = (some k, ks, before_end)
dispatch (some w) none ks = (some w, ks, before_end)
dispatch (some w) (some (k, i)) ks =
    if same (facing w) k
    then (some k, ks, before_middle w)
    else (some w, set ks i (some k), before_end)

abbrev pub all_finished : Road → Bool
all_finished r = r.finish p1 && (r.finish p2 && (r.finish p3 && r.finish p4))

abbrev pub signal : Option Point → (Point → Pc) → Point → Pc
signal none jobs = jobs
signal (some i) jobs = wake i jobs

-- The rest of the round, up to the next wait.
pub manage : System → Road → System
unfolding pick remove dispatch wake
manage s r =
    let found = pick r.place r.waiting_list in
    let ks = remove found r.waiting_list in
    if all_finished r
    then record s { road = record r { waiting_list = ks }; job0 = over }
    else (let (target, ks', next) = dispatch r.place found ks in
        record { road = record r { waiting_list = ks' }; job0 = next; jobs = signal target s.jobs })

-- What job0 does next, if it is not in a wait.
pub manager_step : System → Manager → Option System
unfolding arrive manage
manager_step s ready = do r ← arrive s.road; some (manage s r)
manager_step s (resumed w) = some (record {
  road = record (s.road) { where_temp = s.road.place; temp = true };
  job0 = before_end;
  jobs = wake w s.jobs;
})
manager_step s (before_middle w) = some (record s { job0 = in_middle w })
manager_step s before_end = some (record s { job0 = in_end })
manager_step s (in_middle w) = none
manager_step s in_end = none
manager_step s over = none

-- One step of one thread, in any order.
pub data Step : System → System → Type 0 where
  vehicle : {s : System} (i : Point) → s.jobs i ≡ awake → Step s (job i s)
  settle :
      {s : System} (i : Point)
      → s.jobs i ≡ settling
      → Step s (record s { jobs = update s.jobs i asleep })
  manager : {s s' : System} → manager_step s s.job0 ≡ some s' → Step s s'

pub data Reaches : System → System → Type 0 where
  here : {s : System} → Reaches s s
  then_step : {s t u : System} → Reaches s t → Step t u → Reaches s u

-- The number of vehicles that start at a point.
pub starts : Point → List (Option Point) → ℕ
starts i [] = 0
starts i (none ∷ vs) = starts i vs
starts i (some v ∷ vs) = (if same v i then 1 else 0) + starts i vs

-- `main` up to its signal, with every thread at its first wait; a thread without vehicles ends. Those
-- of the list that are not drawn are 0.
pub launch : List (Option Point) → Option System
unfolding starts wake
launch vehicles = do
  start ← get_elem? vehicles 0
  let counts : Point → ℕ = λ i. starts i vehicles in
      some (record {
        road = record {
          start_point_list = vehicles;
          list_index = 1;
          waiting_list = replicate 20 none;
          waiting_index = 0;
          passed_list = [];
          p_count = counts;
          process = λ i. 0;
          job_count = λ i. 0;
          place = none;
          where_temp = none;
          temp = false;
          finish = λ i. counts i == 0;
          tick = 1;
        };
        job0 = in_end;
        jobs = signal start (λ i. if counts i == 0 then gone else asleep);
      })
