-- ===== src/Crossroad/Prompt/Round.antt =====
-- The round of job0 of Assignment_6/program.c when every thread is in its wait: it signals a vehicle
-- that then goes on, or ends because all have passed.
use ssu_operating_system.Base.{
  ℕ, suc, ◌+◌, ◌≤◌, ◌<◌, ◌≡◌, refl, true, false, inl, inr, ◌≢◌, ◌⊎◌, Option, none, some, List, [],
  ◌∷◌, ◌==◌, arith, Bool-cases, subst, sym, ap, ◌∙◌, drop, length,
}
use ssu_operating_system.Crossroad.{
  Point, p1, p2, p3, p4, update, Road, Pc, awake, settling, gone, Manager, ready, over, System,
  arrive, find_first, pick, remove, dispatch, all_finished, signal, manage, manager_step, manager,
  starts,
}
use ssu_operating_system.Crossroad.Invariant.{Occupied, Quiet, Holds, next_place, same_refl}
use ssu_operating_system.Crossroad.Waiting.{is_from, entering, found-at, dispatch-starts}
use ssu_operating_system.Crossroad.Count.{pending, counted, Quiet-pending}
use ssu_operating_system.Crossroad.Measure.{sum_points, number_of_vehicles, rounds_left}
use ssu_operating_system.Crossroad.Prompt.{IsPacked, at_work, IsLively}
use ssu_operating_system.Crossroad.Order.{IsOrderly, Step-IsOrderly, arrive-Arrived}
use ssu_operating_system.Crossroad.Arrivals.{arrive-Arrives}
use ssu_operating_system.Crossroad.Prompt.Arrival.{IsBlank, Comes, arrive-Comes}
use ssu_operating_system.Crossroad.Prompt.Dispatch.{Signals, dispatch-Signals}
use ssu_operating_system.Crossroad.Prompt.Heard.{
  wake-asleep, woken-pending, present-asleep, woken-gone,
}

true-false : true ≢ false
true-false e = cc

-- What holds when the next vehicle has come: the same as between the steps.
pub record IsMid (total : Point → ℕ) (r : Road) (jobs : Point → Pc) : Type 0 where
  pub all_counted : (i : Point) → counted r jobs i ≡ total i
  pub counts : (i : Point) → r.p_count i ≡ total i
  pub finished : (i : Point) → r.finish i ≡ (r.job_count i == total i)
  pub ended : (i : Point) → jobs i ≡ gone → r.finish i ≡ true
  quiet : Quiet jobs
  pub settled : (i : Point) → jobs i ≢ settling
  occupied : Occupied r.place r.process
  pub blank : IsBlank r.waiting_index r.waiting_list
  pub room :
      r.waiting_index + number_of_vehicles (drop r.list_index r.start_point_list)
      ≤ length r.waiting_list
  pub enough : r.list_index + sum_points (rounds_left r jobs) ≤ length r.start_point_list
  pub packed : IsPacked (drop r.list_index r.start_point_list)
  pub last_waits :
      ((i : Point) → starts i r.waiting_list ≡ 0)
      → (i : Point) → starts i (drop r.list_index r.start_point_list) ≡ 0

find_first-none :
    (ks : List (Option Point)) (n : ℕ) (i : Point) → find_first ks n ≡ none → starts i ks ≡ 0
unfolding find_first starts
find_first-none [] n i e = refl
find_first-none (none ∷ ks) n i e = find_first-none ks (suc n) i e
find_first-none (some k ∷ ks) n i e = cc

-- job0 finds nobody to signal only if all have passed.
IsMid-finished :
    (total : Point → ℕ) (r : Road) (jobs : Point → Pc)
    → IsMid total r jobs
    → pick r.place r.waiting_list ≡ none
    → r.place ≡ none
    → all_finished r ≡ true
unfolding pick
IsMid-finished total r jobs h e p =
    let nobody : (i : Point) → starts i r.waiting_list ≡ 0 =
      λ i. find_first-none r.waiting_list 0 i (rw p at e) in
    let empty : (i : Point) → r.process i ≡ 0 = λ i. (rw p at h.occupied) i in
    let passed : (i : Point) → r.finish i ≡ true = λ i.
      h.finished i
      ∙ ground (
        arith,
        h.all_counted i,
        nobody i,
        empty i,
        h.last_waits nobody i,
        Quiet-pending jobs r.process i h.quiet,
      ) in
    ground (arith, passed p1, passed p2, passed p3, passed p4)

module _ (total : Point → ℕ) (r : Road) (jobs : Point → Pc) (h : IsMid total r jobs)
    (out : Option Point × List (Option Point) × Manager)
    (d : Signals r.place (pick r.place r.waiting_list) r.waiting_list r.process out)
    (kept : (i : Point)
      → starts i r.waiting_list
        ≡ is_from i (entering r.place (pick r.place r.waiting_list)) + starts i out.1) where
  abbrev signalled : System
  signalled = record {
    road = record r { waiting_list = out.1 };
    job0 = out.2;
    jobs = update jobs d.v awake;
  }

  signalled-counted :
      (i : Point)
      → (counted signalled.road signalled.jobs i ≡ counted r jobs i)
        × (rounds_left signalled.road signalled.jobs i ≡ rounds_left r jobs i)
  signalled-counted i =
      let on = woken-pending d.v jobs r.process i h.quiet ∙ sym (d.lets_on i) in
      let off = Quiet-pending jobs r.process i h.quiet in
      (omega (arith, on, off, kept i), omega (arith, on, off, kept i))

  signalled-IsLively : IsOrderly signalled → IsLively total signalled
  signalled-IsLively o = record {
    orderly = o;
    all_counted = λ i. (signalled-counted i).0 ∙ h.all_counted i;
    counts = h.counts;
    finished = h.finished;
    ended = λ i e. h.ended i (woken-gone d.v i jobs e);
    called = d.calls signalled.jobs (rw (same_refl d.v) refl);
    blank = d.kept r.waiting_index h.blank;
    room = omega (arith, h.room, d.same_length);
    enough = omega (
      arith,
      h.enough,
      d.rests,
      (signalled-counted p1).1,
      (signalled-counted p2).1,
      (signalled-counted p3).1,
      (signalled-counted p4).1,
    );
    packed = h.packed;
  }

manage-IsLively :
    (total : Point → ℕ) (s : System) (r : Road)
    → IsMid total r s.jobs
    → all_finished r ≡ false
    → IsOrderly (manage s r)
    → IsLively total (manage s r)
unfolding manage
manage-IsLively total s r h more o =
    let ks = r.waiting_list in
    let found = pick r.place ks in
    let out = dispatch r.place found (remove found ks) in
    let d =
      dispatch-Signals r.place found ks r.process (λ k j e. found-at r.place ks k j e)
        (λ e p. absurd (true-false (sym (IsMid-finished total r s.jobs h e p) ∙ more)))
        h.occupied in
    let resting =
      present-asleep total d.v r s.jobs (h.all_counted d.v) d.present (h.finished d.v) (h.ended d.v)
        (h.quiet d.v) (h.settled d.v) in
    let heard : signal out.0 s.jobs ≡ update s.jobs d.v awake =
      rw d.target (wake-asleep d.v s.jobs resting) in
    let kept = λ (i : Point). dispatch-starts r.place ks i in
    let goes : manage s r ≡ signalled total r s.jobs h out d kept = rw (more, heard) refl in
    subst (IsLively total) (sym goes)
      (signalled-IsLively total r s.jobs h out d kept (subst IsOrderly goes o))

Comes-IsMid :
    (total : Point → ℕ) (s : System) (r : Road)
    → s.job0 ≡ ready
    → ((i : Point) → s.jobs i ≢ settling)
    → IsLively total s
    → arrive s.road ≡ some r
    → Comes s.road r
    → IsMid total r s.jobs
Comes-IsMid total s r at t h came c =
    let (q, occupied) : Holds ready s.road s.jobs =
      subst (λ m. Holds m s.road s.jobs) at h.orderly in
    let v = arrive-Arrived s.road r came in
    let w = arrive-Arrives s.road r came in
    let same_pending : (i : Point) → pending s.jobs r.process i ≡ pending s.jobs s.road.process i =
      λ i. rw v.crossing refl in
    let same_counted : (i : Point) → counted r s.jobs i ≡ counted s.road s.jobs i = λ i.
      omega (arith, c.lists i, same_pending i, ap (λ f. f i) v.crossing, ap (λ f. f i) w.passed) in
    let same_rounds : (i : Point) → rounds_left r s.jobs i ≡ rounds_left s.road s.jobs i =
      λ i. omega (arith, c.lists i, same_pending i, ap (λ f. f i) v.crossing) in
    record {
      all_counted = λ i. same_counted i ∙ h.all_counted i;
      counts = λ i. ap (λ f. f i) w.total ∙ h.counts i;
      finished = λ i. rw (w.ended, w.passed) (h.finished i);
      ended = λ i e. rw w.ended (h.ended i e);
      quiet = q;
      settled = t;
      occupied =
          subst (λ o. Occupied o r.process) (sym v.placed)
            (subst (Occupied (next_place s.road)) (sym v.crossing) occupied);
      blank = c.blank;
      room = c.room;
      enough = omega (
        arith,
        h.enough,
        ap at_work at,
        c.index,
        ap length c.vehicles,
        same_rounds p1,
        same_rounds p2,
        same_rounds p3,
        same_rounds p4,
      );
      packed = c.packed;
      last_waits = c.last_waits;
    }

manage-over : (s : System) (r : Road) → all_finished r ≡ true → (manage s r).job0 ≡ over
unfolding manage
manage-over s r e = rw e refl

ready-step :
    (s : System) (r : Road)
    → s.job0 ≡ ready
    → arrive s.road ≡ some r
    → manager_step s s.job0 ≡ some (manage s r)
unfolding manager_step
ready-step s r at came = rw (at, came) refl

-- job0's round goes through, and leaves a vehicle signalled or ends job0.
pub ready-goes :
    (total : Point → ℕ) (s : System)
    → s.job0 ≡ ready
    → ((i : Point) → s.jobs i ≢ settling)
    → IsLively total s
    → (t : System) × (manager_step s s.job0 ≡ some t) × ((t.job0 ≡ over) ⊎ IsLively total t)
ready-goes total s at t h =
    let inside : s.road.list_index < length s.road.start_point_list =
      omega (arith, h.enough, ap at_work at) in
    let (r, came, c) = arrive-Comes s.road inside h.blank h.room h.packed in
    let goes : manager_step s s.job0 ≡ some (manage s r) = ready-step s r at came in
    let o = Step-IsOrderly (manager {s = s} {s' = manage s r} goes) h.orderly in
    (
      manage s r,
      goes,
      elim (Bool-cases (all_finished r)) [
        | inl done ↦ inl (manage-over s r done)
        | inr more ↦ inr (manage-IsLively total s r (Comes-IsMid total s r at t h came c) more o)
      ],
    )
