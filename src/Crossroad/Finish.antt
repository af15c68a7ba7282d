-- ===== src/Crossroad/Finish.antt =====
-- The end of Assignment_6/program.c: which vehicles have passed when job0 ends.
use ssu_operating_system.Base.{
  ℕ, ◌≡◌, refl, true, inl, inr, ◌≢◌, Option, none, some, List, arith, Bool-cases, Option-cases,
  subst, sym, ap, ◌∙◌, some_eq, get_elem?, ==_iff,
}
use ssu_operating_system.Crossroad.{
  Point, p1, p2, p3, p4, Road, gone, Manager, ready, resumed, before_middle, in_middle, before_end,
  in_end, over, System, arrive, pick, remove, dispatch, all_finished, manage, manager_step, vehicle,
  settle, manager, Reaches, here, then_step, launch, starts,
}
use ssu_operating_system.Crossroad.Order.{none-some}
use ssu_operating_system.Crossroad.Safety.{launched_jobs}
use ssu_operating_system.Crossroad.Arrivals.{arrive-Arrives}
use ssu_operating_system.Crossroad.Ended.{IsFinal, signal-gone, job-IsFinal, settle-IsFinal}

dispatch-not_over :
    (o : Option Point) (found : Option (Point × ℕ)) (ks : List (Option Point))
    → (dispatch o found ks).2 ≢ over
unfolding dispatch
dispatch-not_over none none ks e = cc
dispatch-not_over none (some (k, x)) ks e = cc
dispatch-not_over (some w) none ks e = cc
dispatch-not_over (some w) (some (k, x)) ks e = ground (arith, e)

manage-IsFinal :
    (total : Point → ℕ) (s : System) (r : Road)
    → ((i : Point) → r.p_count i ≡ total i)
    → ((i : Point) → r.finish i ≡ true → (s.jobs i ≡ gone) × (r.job_count i ≡ total i))
    → IsFinal total (manage s r).road (manage s r).job0 (manage s r).jobs
unfolding manage
manage-IsFinal total s r c k = elim (Bool-cases (all_finished r)) [
  | inl all ↦ rw all (record { counts = c; ended = k; done = λ e. all })
  | inr more ↦
      let found = pick r.place r.waiting_list in
      let ks = remove found r.waiting_list in
      rw more (record {
        counts = c;
        ended = λ i f. (signal-gone (dispatch r.place found ks).0 s.jobs i (k i f).0, (k i f).1);
        done = λ e. absurd (dispatch-not_over r.place found ks e);
      })
]

manager-IsFinal :
    (total : Point → ℕ) (m : Manager) (s s' : System)
    → s.job0 ≡ m
    → manager_step s m ≡ some s'
    → IsFinal total s.road m s.jobs
    → IsFinal total s'.road s'.job0 s'.jobs
unfolding manager_step
manager-IsFinal total ready s s' at e h = elim (Option-cases (arrive s.road)) [
  | inl bad ↦ absurd (none-some (rw bad at e))
  | inr (r, came) ↦
      let w = arrive-Arrives s.road r came in
      subst (λ t. IsFinal total t.road t.job0 t.jobs) (some_eq (rw came at e))
        (manage-IsFinal total s r (λ i. ap (λ f. f i) w.total ∙ h.counts i)
          (λ i f.
            let before = h.ended i (ap (λ g. g i) (sym w.ended) ∙ f) in
            (before.0, ap (λ g. g i) w.passed ∙ before.1)))
]
manager-IsFinal total (resumed w) s s' at e h =
    subst (λ t. IsFinal total t.road t.job0 t.jobs) (some_eq e)
      (record {
        counts = h.counts;
        ended = λ i f. (signal-gone (some w) s.jobs i (h.ended i f).0, (h.ended i f).1);
        done = λ q. cc;
      })
manager-IsFinal total (before_middle w) s s' at e h =
    subst (λ t. IsFinal total t.road t.job0 t.jobs) (some_eq e)
      (record { counts = h.counts; ended = h.ended; done = λ q. cc })
manager-IsFinal total before_end s s' at e h =
    subst (λ t. IsFinal total t.road t.job0 t.jobs) (some_eq e)
      (record { counts = h.counts; ended = h.ended; done = λ q. cc })
manager-IsFinal total (in_middle w) s s' at e h = cc
manager-IsFinal total in_end s s' at e h = cc
manager-IsFinal total over s s' at e h = cc

Reaches-IsFinal :
    (total : Point → ℕ) {s t : System}
    → Reaches s t
    → IsFinal total s.road s.job0 s.jobs
    → IsFinal total t.road t.job0 t.jobs
Reaches-IsFinal total here h = h
Reaches-IsFinal total {s} (then_step p (vehicle {s = u} v a)) h =
    job-IsFinal total v u a (Reaches-IsFinal total p h)
Reaches-IsFinal total (then_step p (settle {s = u} v a)) h =
    settle-IsFinal total v u a (Reaches-IsFinal total p h)
Reaches-IsFinal total {t = t} (then_step p (manager {s = u} e)) h =
    manager-IsFinal total u.job0 u t refl e (Reaches-IsFinal total p h)

launch-IsFinal :
    (vehicles : List (Option Point)) (s : System)
    → launch vehicles ≡ some s
    → IsFinal (λ i. starts i vehicles) s.road s.job0 s.jobs
unfolding launch
launch-IsFinal vehicles s e = elim (Option-cases (get_elem? vehicles 0)) [
  | inl empty ↦ absurd (none-some (rw empty at e))
  | inr (start, got) ↦
      subst (λ t. IsFinal (λ i. starts i vehicles) t.road t.job0 t.jobs) (some_eq (rw got at e))
        (record {
          counts = λ i. refl;
          ended = λ i f. (
            signal-gone start (launched_jobs vehicles) i (rw f),
            sym ((==_iff (starts i vehicles) 0).0 f),
          );
          done = λ q. cc;
        })
]

all_finished-each : (r : Road) → all_finished r ≡ true → (i : Point) → r.finish i ≡ true
all_finished-each r h p1 = ground arith
all_finished-each r h p2 = ground arith
all_finished-each r h p3 = ground arith
all_finished-each r h p4 = ground arith

-- In whatever order the threads go on, when job0 has ended, the thread of every start point has
-- ended too and has counted as passed all the vehicles that the list has for it, which are the
-- numbers that print_result prints.
pub launch-over :
    (vehicles : List (Option Point)) (s t : System) (i : Point)
    → launch vehicles ≡ some s
    → Reaches s t
    → t.job0 ≡ over
    → (t.jobs i ≡ gone)
      × (t.road.job_count i ≡ starts i vehicles)
      × (t.road.p_count i ≡ t.road.job_count i)
launch-over vehicles s t i e p o =
    let h = Reaches-IsFinal (λ j. starts j vehicles) p (launch-IsFinal vehicles s e) in
    let (ended, passed) = h.ended i (all_finished-each t.road (h.done o) i) in
    (ended, passed, h.counts i ∙ sym passed)
