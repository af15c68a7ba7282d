-- ===== src/Crossroad/Prompt/Vehicle.antt =====
-- The rounds of the vehicles of Assignment_6/program.c in a run where no signal is lost.
use ssu_operating_system.Base.{
  ℕ, ◌+◌, ◌≤◌, ◌<◌, ◌≡◌, refl, true, false, inl, inr, ◌≢◌, ◌==◌, arith, Bool-cases, subst, sym, ap,
  ◌∙◌, length,
}
use ssu_operating_system.Crossroad.{
  Point, same, update, Road, Pc, awake, settling, gone, Manager, ready, resumed, before_middle,
  in_middle, before_end, in_end, over, System, enter_or_pass, is_last, wake_manager, job, vehicle,
}
use ssu_operating_system.Crossroad.Invariant.{same-eq, same_refl}
use ssu_operating_system.Crossroad.Order.{Step-IsOrderly}
use ssu_operating_system.Crossroad.Safety.{IsSafe-facing, Holds-IsSafe}
use ssu_operating_system.Crossroad.Count.{is_awake, counted}
use ssu_operating_system.Crossroad.Ended.{enter_or_pass-rest}
use ssu_operating_system.Crossroad.Measure.{sum_points, rounds_left, sum_points_lt, Step-counted}
use ssu_operating_system.Crossroad.Ending.{job-rounds_left, job-manager}
use ssu_operating_system.Crossroad.Prompt.{InWait, Called, at_work, IsLively}

-- What a vehicle leaves alone.
record Drives (r r' : Road) : Type 0 where
  waiting : r'.waiting_list ≡ r.waiting_list
  waiting_at : r'.waiting_index ≡ r.waiting_index
  vehicles : r'.start_point_list ≡ r.start_point_list
  vehicles_at : r'.list_index ≡ r.list_index
  totals : r'.p_count ≡ r.p_count

job-Drives : (v : Point) (s : System) → Drives s.road (job v s).road
unfolding job enter_or_pass
job-Drives v s = record {
  waiting = ground arith;
  waiting_at = ground arith;
  vehicles = ground arith;
  vehicles_at = ground arith;
  totals = ground arith;
}

-- A vehicle is not lost on the way.
enter_or_pass-counted :
    (v : Point) (r : Road) (jobs : Point → Pc) (pc : Pc)
    → is_awake pc ≡ false
    → jobs v ≡ awake
    → r.process v ≤ 1
    → (i : Point) → counted (enter_or_pass v r) (update jobs v pc) i ≡ counted r jobs i
unfolding enter_or_pass
enter_or_pass-counted v r jobs pc n a l i = elim (Bool-cases (same v i)) [
  | inl own ↦
      subst (λ j. counted (enter_or_pass v r) (update jobs v pc) j ≡ counted r jobs j)
        (same-eq v i own) (ground (arith, same_refl v))
  | inr other ↦ ground (arith, other)
]

job-counted :
    (v : Point) (s : System)
    → s.jobs v ≡ awake
    → s.road.process v ≤ 1
    → (i : Point) → counted (job v s).road (job v s).jobs i ≡ counted s.road s.jobs i
unfolding job
job-counted v s a l i = elim (Bool-cases (is_last v (enter_or_pass v s.road))) [
  | inl last ↦ rw last (enter_or_pass-counted v s.road s.jobs gone refl a l i)
  | inr more ↦ rw more (enter_or_pass-counted v s.road s.jobs settling refl a l i)
]

-- A vehicle at work is none of those that have passed.
awake-unfinished :
    (v : Point) (r : Road) (jobs : Point → Pc) (total : Point → ℕ)
    → jobs v ≡ awake
    → counted r jobs v ≡ total v
    → (r.job_count v == total v) ≡ false
awake-unfinished v r jobs total a c = ground arith

-- `finish` says which threads have ended, and that all their vehicles have passed.
abbrev IsFinished : (Point → ℕ) → Road → (Point → Pc) → Point → Type 0
IsFinished total r jobs i =
    (r.finish i ≡ (r.job_count i == total i)) × (jobs i ≡ gone → r.finish i ≡ true)

last-IsFinished :
    (total : Point → ℕ) (v : Point) (s : System)
    → is_last v (enter_or_pass v s.road) ≡ true
    → IsLively total s
    → (i : Point)
    → IsFinished total
        (record (enter_or_pass v s.road) { finish = update (enter_or_pass v s.road).finish v true })
        (update s.jobs v gone)
        i
unfolding is_last
last-IsFinished total v s last h i =
    let (counts, finish, others) = enter_or_pass-rest v s.road in
    let whole : (enter_or_pass v s.road).p_count v ≡ total v = ap (λ f. f v) counts ∙ h.counts v in
    elim (Bool-cases (same v i)) [
      | inl own ↦
          subst
            (IsFinished total
              (record (enter_or_pass v s.road) {
                finish = update (enter_or_pass v s.road).finish v true;
              })
              (update s.jobs v gone))
            (same-eq v i own) (rw (same_refl v) (sym (rw whole at last), λ e. refl))
      | inr other ↦
          rw (other, others i other)
            (ap (λ f. f i) finish ∙ h.finished i, λ e. ap (λ f. f i) finish ∙ h.ended i e)
    ]

more-IsFinished :
    (total : Point → ℕ) (v : Point) (s : System)
    → is_last v (enter_or_pass v s.road) ≡ false
    → s.jobs v ≡ awake
    → IsLively total s
    → (i : Point) → IsFinished total (enter_or_pass v s.road) (update s.jobs v settling) i
unfolding is_last
more-IsFinished total v s more a h i =
    let (counts, finish, others) = enter_or_pass-rest v s.road in
    let whole : (enter_or_pass v s.road).p_count v ≡ total v = ap (λ f. f v) counts ∙ h.counts v in
    elim (Bool-cases (same v i)) [
      | inl own ↦
          subst (IsFinished total (enter_or_pass v s.road) (update s.jobs v settling))
            (same-eq v i own)
            (
              ap (λ f. f v) finish
                  ∙ (h.finished v
                      ∙ (awake-unfinished v s.road s.jobs total a (h.all_counted v)
                          ∙ sym (rw whole at more))),
              λ e. absurd (settling-gone (rw (same_refl v) at e)),
            )
      | inr other ↦
          rw (other, others i other)
            (ap (λ f. f i) finish ∙ h.finished i, λ e. ap (λ f. f i) finish ∙ h.ended i e)
    ]
  where
    settling-gone : settling ≢ gone
    settling-gone e = cc

job-IsFinished :
    (total : Point → ℕ) (v : Point) (s : System)
    → s.jobs v ≡ awake
    → IsLively total s
    → (i : Point) → IsFinished total (job v s).road (job v s).jobs i
unfolding job
job-IsFinished total v s a h i = elim (Bool-cases (is_last v (enter_or_pass v s.road))) [
  | inl last ↦ rw last (last-IsFinished total v s last h i)
  | inr more ↦ rw more (more-IsFinished total v s more a h i)
]

-- Behind a wait job0 has nobody to wait for, and a round to do.
wake_manager-Called :
    (m : Manager) (jobs : Point → Pc)
    → InWait m
    → Called (wake_manager m) jobs × (at_work (wake_manager m) ≡ at_work m + 1)
unfolding wake_manager
wake_manager-Called ready jobs w = absurd w
wake_manager-Called (resumed u) jobs w = absurd w
wake_manager-Called (before_middle u) jobs w = absurd w
wake_manager-Called (in_middle u) jobs w = (tt, refl)
wake_manager-Called before_end jobs w = absurd w
wake_manager-Called in_end jobs w = (tt, refl)
wake_manager-Called over jobs w = absurd w

-- A vehicle's round keeps all of it.
pub vehicle-IsLively :
    (total : Point → ℕ) (v : Point) (s : System)
    → s.jobs v ≡ awake
    → InWait s.job0
    → IsLively total s
    → IsLively total (job v s)
vehicle-IsLively total v s a w h =
    let low = (IsSafe-facing s.road.process (Holds-IsSafe s.job0 s.road s.jobs h.orderly) v v).0 in
    let d = job-Drives v s in
    let left = job-rounds_left v s low (Step-counted (vehicle v a) h.orderly) in
    let fewer : sum_points (rounds_left (job v s).road (job v s).jobs)
        < sum_points (rounds_left s.road s.jobs) =
      sum_points_lt (rounds_left (job v s).road (job v s).jobs) (rounds_left s.road s.jobs) v
        (λ i. omega (arith, left i)) (ground (arith, left v, same_refl v)) in
    let (called, working) = wake_manager-Called s.job0 (job v s).jobs w in
    record {
      orderly = Step-IsOrderly (vehicle v a) h.orderly;
      all_counted = λ i. job-counted v s a low i ∙ h.all_counted i;
      counts = λ i. ap (λ f. f i) d.totals ∙ h.counts i;
      finished = λ i. (job-IsFinished total v s a h i).0;
      ended = λ i. (job-IsFinished total v s a h i).1;
      called = rw (job-manager v s) called;
      blank = rw (d.waiting, d.waiting_at) h.blank;
      room = rw (d.waiting, d.waiting_at, d.vehicles, d.vehicles_at) h.room;
      enough = omega (
        arith,
        h.enough,
        fewer,
        d.vehicles_at,
        ap length d.vehicles,
        ap at_work (job-manager v s),
        working,
      );
      packed = rw (d.vehicles, d.vehicles_at) h.packed;
    }
