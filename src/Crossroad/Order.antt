-- ===== src/Crossroad/Order.antt =====
-- Every step of Assignment_6/program.c keeps what holds of the crossroad, in any order of the steps.
use ssu_operating_system.Base.{
  ℕ, ◌+◌, ◌≡◌, refl, Bool, true, false, ◌⊎◌, inl, inr, ◌≢◌, Option, none, some, List, [], arith,
  Bool-cases, Option-cases, subst, sym, ◌∙◌, some_eq, get_elem?,
}
use ssu_operating_system.Crossroad.{
  Point, facing, same, update, Road, Pc, asleep, awake, settling, gone, Manager, ready, resumed,
  before_middle, in_middle, before_end, in_end, over, System, enter_or_pass, is_last, wake_manager,
  deliver, wake, job, queue_up, restore_place, arrive, pick, remove, dispatch, all_finished, signal,
  manage, manager_step, Step, vehicle, settle, manager, Reaches, here, then_step,
}
use ssu_operating_system.Crossroad.Invariant.{
  Occupied, IsSafe, one_or_none, both, Quiet, Only, next_place, Turn, enters, leaves, yields, Waits,
  lost, turn, WaitsMiddle, missed, joins, Holds, job-Holds, settle-Holds, same-eq,
}

-- A signal wakes the vehicle that it is for, or is lost.
wake-cases :
    (v : Point) (jobs : Point → Pc) → Quiet jobs → Quiet (wake v jobs) ⊎ Only v (wake v jobs)
unfolding wake deliver
wake-cases v jobs q = woken (jobs v)
  where
    woken : (pc : Pc) → Quiet (deliver pc v jobs) ⊎ Only v (deliver pc v jobs)
    woken asleep = inr (λ j e. elim (Bool-cases (same v j)) [
      | inl own ↦ same-eq v j own
      | inr other ↦ absurd (q j (rw other at e))
    ])
    woken awake = inl q
    woken settling = inl q
    woken gone = inl q

pub wake-Waits :
    (v : Point) (temp : Bool) (where_temp : Option Point) (process : Point → ℕ) (jobs : Point → Pc)
    → Quiet jobs
    → IsSafe process
    → Turn v temp where_temp process
    → Waits temp where_temp process (wake v jobs)
wake-Waits v temp where_temp process jobs q h t = elim (wake-cases v jobs q) [
  | inl missed_it ↦ lost missed_it h
  | inr woken ↦ turn v woken t
]

wake-WaitsMiddle :
    (w : Point) (process : Point → ℕ) (jobs : Point → Pc)
    → Quiet jobs
    → Occupied (some w) process
    → WaitsMiddle w process (wake (facing w) jobs)
wake-WaitsMiddle w process jobs q h = elim (wake-cases (facing w) jobs q) [
  | inl missed_it ↦ missed missed_it (one_or_none (some w) h)
  | inr woken ↦ joins woken h
]

-- What the start of a round leaves.
pub record Arrived (r r' : Road) : Type 0 where
  pub crossing : r'.process ≡ r.process
  pub settled : r'.temp ≡ false
  pub placed : r'.place ≡ next_place r

queue_up-Arrived :
    (start : Option Point) (r r' : Road)
    → queue_up start r ≡ some r'
    → (r'.process ≡ r.process)
      × (r'.temp ≡ r.temp)
      × (r'.place ≡ r.place)
      × (r'.where_temp ≡ r.where_temp)
unfolding queue_up
queue_up-Arrived none r r' e = ground (arith, some_eq e)
queue_up-Arrived (some v) r r' e = ground arith

restore-Arrived :
    (r : Road)
    → ((restore_place r).process ≡ r.process)
      × ((restore_place r).temp ≡ false)
      × ((restore_place r).place ≡ next_place r)
unfolding restore_place
restore-Arrived r = ground arith

pub none-some : {A : Type 0} {a : A} → none ≢ some a
none-some e = cc

pub arrive-Arrived : (r r' : Road) → arrive r ≡ some r' → Arrived r r'
unfolding arrive
arrive-Arrived r r' e = elim (Option-cases (get_elem? r.start_point_list r.list_index)) [
  | inl past_end ↦ absurd (none-some (rw past_end at e))
  | inr (start, got) ↦
      let begun : Road = record r {
        passed_list = [];
        list_index = r.list_index + 1;
        tick = r.tick + 1;
      } in
      elim (Option-cases (queue_up start begun)) [
        | inl full ↦ absurd (none-some (rw (got, full) at e))
        | inr (r'', queued) ↦
            let back : restore_place r'' ≡ r' = some_eq (rw (got, queued) at e) in
            let before = queue_up-Arrived start begun r'' queued in
            let after = restore-Arrived r'' in
            subst (Arrived r) back (record {
              crossing = after.0 ∙ before.0;
              settled = after.1;
              placed = ground (arith, after, before);
            })
      ]
]

-- What job0 signals at the end of a round, and where it goes on.
dispatch-Holds :
    (o : Option Point) (found : Option (Point × ℕ)) (ks : List (Option Point)) (r : Road)
    (jobs : Point → Pc)
    → r.temp ≡ false
    → Quiet jobs
    → Occupied o r.process
    → let out = dispatch o found ks in
      Holds out.2 (record r { waiting_list = out.1 }) (signal out.0 jobs)
unfolding dispatch
dispatch-Holds none none ks r jobs t q h = lost q (one_or_none none h)
dispatch-Holds none (some (k, i)) ks r jobs t q h =
    wake-Waits k r.temp r.where_temp r.process jobs q (one_or_none none h) (enters t h)
dispatch-Holds (some w) none ks r jobs t q h =
    wake-Waits w r.temp r.where_temp r.process jobs q (one_or_none (some w) h) (leaves t h)
dispatch-Holds (some w) (some (k, i)) ks r jobs t q h = elim (Bool-cases (same (facing w) k)) [
  | inl faces ↦ rw faces (
      subst (λ k. WaitsMiddle w r.process (wake k jobs)) (same-eq (facing w) k faces)
        (wake-WaitsMiddle w r.process jobs q h))
  | inr other ↦
      rw other
        (wake-Waits w r.temp r.where_temp r.process jobs q (one_or_none (some w) h) (leaves t h))
]

abbrev pub IsOrderly : System → Type 0
IsOrderly s = Holds s.job0 s.road s.jobs

manage-Holds :
    (s : System) (r : Road)
    → r.temp ≡ false
    → Quiet s.jobs
    → Occupied r.place r.process
    → IsOrderly (manage s r)
unfolding manage
manage-Holds s r t q h = elim (Bool-cases (all_finished r)) [
  | inl done ↦ rw done (q, one_or_none r.place h)
  | inr more ↦ rw more (
      dispatch-Holds r.place (pick r.place r.waiting_list)
        (remove (pick r.place r.waiting_list) r.waiting_list) r s.jobs t q h)
]

manager-Holds :
    (m : Manager) (s s' : System)
    → s.job0 ≡ m
    → manager_step s m ≡ some s'
    → Holds m s.road s.jobs
    → IsOrderly s'
unfolding manager_step
manager-Holds ready s s' at e (q, h) = elim (Option-cases (arrive s.road)) [
  | inl bad ↦ absurd (none-some (rw bad at e))
  | inr (r, came) ↦
      let v = arrive-Arrived s.road r came in
      subst IsOrderly (some_eq (rw came at e)) (
        manage-Holds s r v.settled q (
          subst (λ o. Occupied o r.process) (sym v.placed)
            (subst (Occupied (next_place s.road)) (sym v.crossing) h)))
]
manager-Holds (resumed w) s s' at e (q, (h, k)) =
    subst IsOrderly (some_eq e)
      (wake-Waits w true s.road.place s.road.process s.jobs q (both w h) (yields refl k h))
manager-Holds (before_middle w) s s' at e h = subst IsOrderly (some_eq e) h
manager-Holds before_end s s' at e h = subst IsOrderly (some_eq e) h
manager-Holds (in_middle w) s s' at e h = cc
manager-Holds in_end s s' at e h = cc
manager-Holds over s s' at e h = cc

Holds-finish :
    (m : Manager) (r : Road) (finish : Point → Bool) (jobs : Point → Pc)
    → Holds m r jobs
    → Holds m (record r { finish = finish }) jobs
Holds-finish ready r finish jobs h = h
Holds-finish (resumed w) r finish jobs h = h
Holds-finish (before_middle w) r finish jobs h = h
Holds-finish (in_middle w) r finish jobs h = h
Holds-finish before_end r finish jobs h = h
Holds-finish in_end r finish jobs h = h
Holds-finish over r finish jobs h = h

-- Every step, by whichever thread, keeps the order.
pub Step-IsOrderly : {s t : System} → Step s t → IsOrderly s → IsOrderly t
unfolding job
Step-IsOrderly {s} (vehicle i a) h = elim (Bool-cases (is_last i (enter_or_pass i s.road))) [
  | inl last ↦ rw last (
      Holds-finish (wake_manager s.job0) (enter_or_pass i s.road) _ (update s.jobs i gone)
        (job-Holds i s.job0 s.road s.jobs gone (λ e. cc) a h))
  | inr more ↦ rw more (job-Holds i s.job0 s.road s.jobs settling (λ e. cc) a h)
]
Step-IsOrderly {s} (settle i a) h = settle-Holds i s.job0 s.road s.jobs h
Step-IsOrderly {s} {t} (manager e) h = manager-Holds s.job0 s t refl e h

pub Reaches-IsOrderly : {s t : System} → Reaches s t → IsOrderly s → IsOrderly t
Reaches-IsOrderly here h = h
Reaches-IsOrderly (then_step p q) h = Step-IsOrderly q (Reaches-IsOrderly p h)
