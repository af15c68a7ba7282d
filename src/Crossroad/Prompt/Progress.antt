-- ===== src/Crossroad/Prompt/Progress.antt =====
-- A run of Assignment_6/program.c in which no signal is lost goes on until job0 has ended.
use ssu_operating_system.Base.{
  ℕ, ◌≡◌, refl, true, inl, inr, ◌≢◌, ◌⊎◌, none, some, arith, subst, sym, ◌∙◌, some_eq,
}
use ssu_operating_system.Crossroad.{
  Point, p1, p2, p3, p4, facing, update, Pc, asleep, awake, settling, gone, Manager, ready, resumed,
  before_middle, in_middle, before_end, in_end, over, System, manager_step, manager, job,
}
use ssu_operating_system.Crossroad.Invariant.{Holds, same_refl}
use ssu_operating_system.Crossroad.Order.{IsOrderly, Step-IsOrderly, none-some}
use ssu_operating_system.Crossroad.Count.{pending, Quiet-pending}
use ssu_operating_system.Crossroad.Prompt.{
  InWait, PromptStep, prompt_vehicle, prompt_settle, prompt_manager, Called, at_work, IsLively,
}
use ssu_operating_system.Crossroad.Prompt.Vehicle.{vehicle-IsLively}
use ssu_operating_system.Crossroad.Prompt.Settle.{settle-IsLively}
use ssu_operating_system.Crossroad.Prompt.Heard.{
  present-asleep, woken-pending, wake-asleep, woken-gone,
}
use ssu_operating_system.Crossroad.Prompt.Round.{ready-goes}

-- job0 has ended, or the run goes on.
abbrev pub GoesOn : (Point → ℕ) → System → Type 0
GoesOn total s = (s.job0 ≡ over) ⊎ IsLively total s

-- What a step of job0 other than the start of a round does.
abbrev Advances : (Point → ℕ) → System → Type 0
Advances total s = (t : System) × (manager_step s s.job0 ≡ some t) × GoesOn total t

is_settling? : (pc : Pc) → (pc ≡ settling) ⊎ (pc ≢ settling)
is_settling? asleep = inr (λ e. cc)
is_settling? awake = inr (λ e. cc)
is_settling? settling = inl refl
is_settling? gone = inr (λ e. cc)

settling-cases :
    (jobs : Point → Pc) → ((i : Point) × (jobs i ≡ settling)) ⊎ ((i : Point) → jobs i ≢ settling)
settling-cases jobs = elim (is_settling? (jobs p1)) [
  | inl e ↦ inl (p1, e)
  | inr n1 ↦ elim (is_settling? (jobs p2)) [
    | inl e ↦ inl (p2, e)
    | inr n2 ↦ elim (is_settling? (jobs p3)) [
      | inl e ↦ inl (p3, e)
      | inr n3 ↦ elim (is_settling? (jobs p4)) [
        | inl e ↦ inl (p4, e)
        | inr n4 ↦ inr (nobody n1 n2 n3 n4)
      ]
    ]
  ]
]
  where
    nobody :
        jobs p1 ≢ settling
        → jobs p2 ≢ settling
        → jobs p3 ≢ settling
        → jobs p4 ≢ settling
        → (i : Point) → jobs i ≢ settling
    nobody n1 n2 n3 n4 p1 = n1
    nobody n1 n2 n3 n4 p2 = n2
    nobody n1 n2 n3 n4 p3 = n3
    nobody n1 n2 n3 n4 p4 = n4

manager-goes :
    (total : Point → ℕ) (s t : System)
    → manager_step s s.job0 ≡ some t
    → (IsOrderly t → IsLively total t)
    → IsLively total s
    → Advances total s
manager-goes total s t e lively h =
    (t, e, inr (lively (Step-IsOrderly (manager {s = s} {s' = t} e) h.orderly)))

-- Behind the wait in a branch job0 signals the vehicle that went on the crossroad first.
resumed-goes :
    (total : Point → ℕ) (w : Point) (s : System)
    → s.job0 ≡ resumed w
    → ((i : Point) → s.jobs i ≢ settling)
    → IsLively total s
    → Advances total s
unfolding manager_step
resumed-goes total w s at t h =
    let (q, (on, p)) : Holds (resumed w) s.road s.jobs =
      subst (λ m. Holds m s.road s.jobs) at h.orderly in
    let crossing : s.road.process w ≡ 1 = ground (arith, on w, same_refl w) in
    let resting =
      present-asleep total w s.road s.jobs (h.all_counted w)
        (inr (λ z. absurd (omega (arith, z, crossing)))) (h.finished w) (h.ended w) (q w) (t w) in
    let same_pending : (i : Point)
        → pending (update s.jobs w awake) s.road.process i ≡ pending s.jobs s.road.process i =
      λ i. ground (
        arith,
        woken-pending w s.jobs s.road.process i q,
        Quiet-pending s.jobs s.road.process i q,
        crossing,
      ) in
    manager-goes total s
      (record {
        road = record (s.road) { where_temp = s.road.place; temp = true };
        job0 = before_end;
        jobs = update s.jobs w awake;
      })
      (rw (at, wake-asleep w s.jobs resting) refl)
      (λ o. record {
        orderly = o;
        all_counted = λ i. omega (arith, same_pending i, h.all_counted i);
        counts = h.counts;
        finished = h.finished;
        ended = λ i e. h.ended i (woken-gone w i s.jobs e);
        called = (w, rw (same_refl w) refl);
        blank = h.blank;
        room = h.room;
        enough =
            omega
              (arith, h.enough, same_pending p1, same_pending p2, same_pending p3, same_pending p4);
        packed = h.packed;
      })
      h

-- job0 goes to its wait.
waits-IsLively :
    (total : Point → ℕ) (m : Manager) (s : System)
    → IsLively total s
    → Called m s.jobs
    → at_work m ≡ 0
    → IsOrderly (record s { job0 = m })
    → IsLively total (record s { job0 = m })
waits-IsLively total m s h c z o = record {
  orderly = o;
  all_counted = h.all_counted;
  counts = h.counts;
  finished = h.finished;
  ended = h.ended;
  called = c;
  blank = h.blank;
  room = h.room;
  enough = omega (arith, h.enough, z);
  packed = h.packed;
}

-- job0 ends, waits for a vehicle that is signalled, or goes on.
manager-cases :
    (total : Point → ℕ) (m : Manager) (s : System)
    → s.job0 ≡ m
    → ((i : Point) → s.jobs i ≢ settling)
    → IsLively total s
    → (s.job0 ≡ over)
      ⊎ ((InWait s.job0 × ((v : Point) × (s.jobs v ≡ awake)) × (manager_step s s.job0 ≡ none))
          ⊎ Advances total s)
unfolding manager_step
manager-cases total ready s at t h = inr (inr (ready-goes total s at t h))
manager-cases total (resumed w) s at t h = inr (inr (resumed-goes total w s at t h))
manager-cases total (before_middle w) s at t h = inr (
    inr (
      manager-goes total s (record s { job0 = in_middle w }) (rw at refl)
        (waits-IsLively total (in_middle w) s h (rw at at h.called) refl) h))
manager-cases total before_end s at t h = inr (
    inr (
      manager-goes total s (record s { job0 = in_end }) (rw at refl)
        (waits-IsLively total in_end s h (rw at at h.called) refl) h))
manager-cases total (in_middle w) s at t h =
    inr (inl (rw at tt, (facing w, rw at at h.called), rw at refl))
manager-cases total in_end s at t h = inr (inl (rw at tt, rw at at h.called, rw at refl))
manager-cases total over s at t h = inl at

-- Until job0 has ended some thread can go on.
pub progress :
    (total : Point → ℕ) (s : System)
    → GoesOn total s
    → (s.job0 ≡ over) ⊎ ((t : System) × PromptStep s t)
progress total s (inl o) = inl o
progress total s (inr h) = elim (settling-cases s.jobs) [
  | inl (i, e) ↦ inr (record s { jobs = update s.jobs i asleep }, prompt_settle i e)
  | inr n ↦ elim (manager-cases total s.job0 s refl n h) [
    | inl o ↦ inl o
    | inr (inl (w, (v, a), e)) ↦ inr (job v s, prompt_vehicle v a w)
    | inr (inr (t, e, g)) ↦ inr (t, prompt_manager n e)
  ]
]

over-InWait : (m : Manager) → m ≡ over → InWait m → ⊥
over-InWait m e w = subst InWait e w

over-manager_step : (s t : System) → s.job0 ≡ over → manager_step s s.job0 ≢ some t
unfolding manager_step
over-manager_step s t o e = none-some (rw o at e)

-- Each step of a run without lost signals keeps it so.
pub PromptStep-GoesOn :
    (total : Point → ℕ) {s t : System} → PromptStep s t → GoesOn total s → GoesOn total t
PromptStep-GoesOn total {s} (prompt_vehicle v a w) (inl o) = absurd (over-InWait s.job0 o w)
PromptStep-GoesOn total (prompt_settle v a) (inl o) = inl o
PromptStep-GoesOn total {s} {t} (prompt_manager n e) (inl o) = absurd (over-manager_step s t o e)
PromptStep-GoesOn total {s} (prompt_vehicle v a w) (inr h) = inr (vehicle-IsLively total v s a w h)
PromptStep-GoesOn total {s} (prompt_settle v a) (inr h) = inr (settle-IsLively total v s a h)
PromptStep-GoesOn total {s} {t} (prompt_manager n e) (inr h) =
    elim (manager-cases total s.job0 s refl n h) [
      | inl o ↦ absurd (over-manager_step s t o e)
      | inr (inl (w, called, none_left)) ↦ absurd (none-some (sym none_left ∙ e))
      | inr (inr (u, k, g)) ↦ subst (GoesOn total) (some_eq (sym k ∙ e)) g
    ]
