-- ===== src/Crossroad/Count.antt =====
-- How many vehicles of Assignment_6/program.c pass from each start point: no vehicle is counted
-- twice, in any order of the steps.
use ssu_operating_system.Base.{
  ℕ, zero, suc, ◌+◌, ◌≤◌, ◌≡◌, refl, Bool, true, false, ◌&&◌, inl, inr, Option, none, some, List,
  ◌==◌, if◌then◌else◌, arith, Bool-cases, Option-cases, subst, sym, some_eq, get_elem?, drop,
  replicate, ◌≢◌,
}
use ssu_operating_system.Crossroad.{
  Point, facing, same, update, Road, Pc, asleep, awake, settling, gone, Manager, ready, resumed,
  before_middle, in_middle, before_end, in_end, over, System, enter_or_pass, is_last, deliver, wake,
  job, arrive, pick, remove, dispatch, all_finished, signal, manage, manager_step, Step, vehicle,
  settle, manager, Reaches, here, then_step, launch, starts,
}
use ssu_operating_system.Crossroad.Invariant.{
  Occupied, Quiet, Holds, next_place, same-eq, same_refl,
}
use ssu_operating_system.Crossroad.Order.{none-some, arrive-Arrived, IsOrderly, Reaches-IsOrderly}
use ssu_operating_system.Crossroad.Safety.{
  launched_jobs, launched_jobs-Quiet, IsSafe-facing, Holds-IsSafe, launch-IsOrderly,
}
use ssu_operating_system.Crossroad.Waiting.{dispatch-starts, is_from, entering}
use ssu_operating_system.Crossroad.Arrivals.{arrive-Arrives, starts-drop, remove-starts}

abbrev pub is_awake : Pc → Bool
is_awake awake = true
is_awake _ = false

-- A vehicle that has been signalled to enter, and has not entered.
abbrev pub pending : (Point → Pc) → (Point → ℕ) → Point → ℕ
pending jobs process i = if is_awake (jobs i) && (process i == 0) then 1 else 0

-- The vehicles of a start point that have passed, are on the crossroad, are signalled to enter, wait
-- or are yet to arrive.
abbrev pub counted : Road → (Point → Pc) → Point → ℕ
counted r jobs i =
    r.job_count i
    + (r.process i
        + (pending jobs r.process i
            + (starts i r.waiting_list + starts i (drop r.list_index r.start_point_list))))

-- They are no more than `total`.
abbrev IsBounded : (Point → ℕ) → Road → (Point → Pc) → Type 0
IsBounded total r jobs = (i : Point) → counted r jobs i ≤ total i

-- A round of a vehicle moves it on.
enter_or_pass-IsBounded :
    (total : Point → ℕ) (v : Point) (r : Road) (jobs : Point → Pc) (pc : Pc) (finish : Point → Bool)
    → is_awake pc ≡ false
    → jobs v ≡ awake
    → r.process v ≤ 1
    → IsBounded total r jobs
    → IsBounded total (record (enter_or_pass v r) { finish = finish }) (update jobs v pc)
unfolding enter_or_pass
enter_or_pass-IsBounded total v r jobs pc finish n a l b i = elim (Bool-cases (same v i)) [
  | inl own ↦
      subst
        (λ j.
          counted (record (enter_or_pass v r) { finish = finish }) (update jobs v pc) j ≤ total j)
        (same-eq v i own) (ground (arith, b v, same_refl v))
  | inr other ↦ ground (arith, b i)
]

pub Quiet-pending :
    (jobs : Point → Pc) (process : Point → ℕ) (i : Point) → Quiet jobs → pending jobs process i ≡ 0
Quiet-pending jobs process i q = quiet_pc (jobs i) (q i)
  where
    quiet_pc : (pc : Pc) → pc ≢ awake → pending (λ j. pc) process i ≡ 0
    quiet_pc awake n = absurd (n refl)
    quiet_pc asleep n = refl
    quiet_pc settling n = refl
    quiet_pc gone n = refl

-- A signal makes at most its vehicle pending, and only if it is not on the crossroad.
wake-pending :
    (v : Point) (jobs : Point → Pc) (process : Point → ℕ) (i : Point)
    → Quiet jobs
    → pending (wake v jobs) process i ≤ (if process v == 0 then is_from i (some v) else 0)
unfolding wake deliver
wake-pending v jobs process i q = woken (jobs v)
  where
    still : pending jobs process i ≤ (if process v == 0 then is_from i (some v) else 0)
    still = omega (arith, Quiet-pending jobs process i q)

    woken :
        (pc : Pc)
        → pending (deliver pc v jobs) process i ≤ (if process v == 0 then is_from i (some v) else 0)
    woken asleep = elim (Bool-cases (same v i)) [
      | inl own ↦
          subst
            (λ j.
              pending (update jobs v awake) process j
              ≤ (if process v == 0 then is_from j (some v) else 0))
            (same-eq v i own) (ground (arith, same_refl v))
      | inr other ↦ ground (arith, other, Quiet-pending jobs process i q)
    ]
    woken awake = still
    woken settling = still
    woken gone = still

-- Whom job0 signals at the end of a round is pending only if it leaves the list.
dispatch-pending :
    (o : Option Point) (found : Option (Point × ℕ)) (ks : List (Option Point)) (jobs : Point → Pc)
    (process : Point → ℕ) (i : Point)
    → Quiet jobs
    → Occupied o process
    → pending (signal (dispatch o found ks).0 jobs) process i ≤ is_from i (entering o found)
unfolding dispatch
dispatch-pending none none ks jobs process i q h = omega (arith, Quiet-pending jobs process i q)
dispatch-pending none (some (k, x)) ks jobs process i q h =
    ground (arith, wake-pending k jobs process i q)
dispatch-pending (some w) none ks jobs process i q h =
    ground (arith, wake-pending w jobs process i q, h w, same_refl w)
dispatch-pending (some w) (some (k, x)) ks jobs process i q h =
    elim (Bool-cases (same (facing w) k)) [
      | inl faces_it ↦ rw faces_it (ground (arith, wake-pending k jobs process i q))
      | inr other ↦ rw other (ground (arith, wake-pending w jobs process i q, h w, same_refl w))
    ]

manage-IsBounded :
    (total : Point → ℕ) (s : System) (r : Road)
    → Quiet s.jobs
    → Occupied r.place r.process
    → IsBounded total r s.jobs
    → IsBounded total (manage s r).road (manage s r).jobs
unfolding manage
manage-IsBounded total s r q h b i = elim (Bool-cases (all_finished r)) [
  | inl done ↦ rw done (
      omega (
        arith,
        b i,
        Quiet-pending s.jobs r.process i q,
        remove-starts (pick r.place r.waiting_list) r.waiting_list i,
      ))
  | inr more ↦ rw more (
      omega (
        arith,
        b i,
        Quiet-pending s.jobs r.process i q,
        dispatch-starts r.place r.waiting_list i,
        dispatch-pending r.place (pick r.place r.waiting_list)
            (remove (pick r.place r.waiting_list) r.waiting_list) s.jobs r.process i q h,
      ))
]

abbrev pub IsCounted : (Point → ℕ) → System → Type 0
IsCounted total s = IsBounded total s.road s.jobs

manager-IsCounted :
    (total : Point → ℕ) (m : Manager) (s s' : System)
    → manager_step s m ≡ some s'
    → Holds m s.road s.jobs
    → IsCounted total s
    → IsCounted total s'
unfolding manager_step
manager-IsCounted total ready s s' e (q, h) b = elim (Option-cases (arrive s.road)) [
  | inl bad ↦ absurd (none-some (rw bad at e))
  | inr (r, came) ↦
      let v = arrive-Arrived s.road r came in
      let w = arrive-Arrives s.road r came in
      subst (IsCounted total) (some_eq (rw came at e)) (
        manage-IsBounded total s r q
          (subst (λ o. Occupied o r.process) (sym v.placed)
            (subst (Occupied (next_place s.road)) (sym v.crossing) h))
          (λ i. rw (w.passed, w.crossing) (omega (arith, b i, w.lists i))))
]
manager-IsCounted total (resumed w) s s' e (q, (h, k)) b = subst (IsCounted total) (some_eq e) (λ i.
    ground (
      arith,
      b i,
      h w,
      same_refl w,
      Quiet-pending s.jobs s.road.process i q,
      wake-pending w s.jobs s.road.process i q,
    ))
manager-IsCounted total (before_middle w) s s' e h b = subst (IsCounted total) (some_eq e) b
manager-IsCounted total before_end s s' e h b = subst (IsCounted total) (some_eq e) b
manager-IsCounted total (in_middle w) s s' e h b = cc
manager-IsCounted total in_end s s' e h b = cc
manager-IsCounted total over s s' e h b = cc

settle-pending :
    (v i : Point) (jobs : Point → Pc) (process : Point → ℕ)
    → pending (update jobs v asleep) process i ≤ pending jobs process i
settle-pending v i jobs process = elim (Bool-cases (same v i)) [
  | inl own ↦ ground (arith, own)
  | inr other ↦ ground (arith, other)
]

pub Step-IsCounted :
    (total : Point → ℕ) {s t : System}
    → Step s t
    → IsOrderly s
    → IsCounted total s
    → IsCounted total t
unfolding job
Step-IsCounted total {s} (vehicle v a) h b =
    let safe = Holds-IsSafe s.job0 s.road s.jobs h in
    let low = (IsSafe-facing s.road.process safe v v).0 in
    elim (Bool-cases (is_last v (enter_or_pass v s.road))) [
      | inl last ↦ rw last (
          enter_or_pass-IsBounded total v s.road s.jobs gone
            (update (enter_or_pass v s.road).finish v true) refl a low b)
      | inr more ↦ rw more (
          enter_or_pass-IsBounded total v s.road s.jobs settling (enter_or_pass v s.road).finish
            refl a low b)
    ]
Step-IsCounted total {s} (settle v a) h b =
    λ i. omega (arith, b i, settle-pending v i s.jobs s.road.process)
Step-IsCounted total {s} {t} (manager e) h b = manager-IsCounted total s.job0 s t e h b

Reaches-IsCounted :
    (total : Point → ℕ) {s t : System}
    → Reaches s t
    → IsOrderly s
    → IsCounted total s
    → IsCounted total t
Reaches-IsCounted total here h b = b
Reaches-IsCounted total (then_step p q) h b =
    Step-IsCounted total q (Reaches-IsOrderly p h) (Reaches-IsCounted total p h b)

none-wait : (i : Point) (n : ℕ) → starts i (replicate n none) ≡ 0
unfolding starts
none-wait i zero = refl
none-wait i (suc n) = none-wait i n

signal-pending :
    (start : Option Point) (jobs : Point → Pc) (i : Point)
    → Quiet jobs
    → pending (signal start jobs) (λ j. 0) i ≤ is_from i start
signal-pending none jobs i q = omega (arith, Quiet-pending jobs (λ j. 0) i q)
signal-pending (some v) jobs i q = wake-pending v jobs (λ j. 0) i q

pub launch-IsCounted :
    (vehicles : List (Option Point)) (s : System)
    → launch vehicles ≡ some s
    → IsCounted (λ i. starts i vehicles) s
unfolding launch
launch-IsCounted vehicles s e = elim (Option-cases (get_elem? vehicles 0)) [
  | inl empty ↦ absurd (none-some (rw empty at e))
  | inr (start, got) ↦ subst (IsCounted (λ i. starts i vehicles)) (some_eq (rw got at e)) (λ i.
      omega (
        arith,
        starts-drop i vehicles 0 start got,
        none-wait i 20,
        signal-pending start (launched_jobs vehicles) i (launched_jobs-Quiet vehicles),
      ))
]

-- In whatever order the threads go on, the vehicles from a start point that have passed and those on
-- the crossroad are together no more than those that the list of start points has for it: no
-- vehicle passes twice.
pub launch-passed :
    (vehicles : List (Option Point)) (s t : System) (i : Point)
    → launch vehicles ≡ some s
    → Reaches s t
    → t.road.job_count i + t.road.process i ≤ starts i vehicles
launch-passed vehicles s t i e p = omega (
  arith,
  Reaches-IsCounted (λ j. starts j vehicles) p (launch-IsOrderly vehicles s e)
      (launch-IsCounted vehicles s e) i,
)
