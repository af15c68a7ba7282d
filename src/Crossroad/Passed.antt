-- ===== src/Crossroad/Passed.antt =====
-- `passed_list` of Assignment_6/program.c has 10 entries, and a round never needs more than one.
use ssu_operating_system.Base.{
  ◌≤◌, ◌≡◌, refl, Bool, true, false, inl, inr, ◌≢◌, Option, some, List, [], ◌∷◌, ◌++◌, arith,
  Bool-cases, Option-cases, subst, sym, ap, ◌∙◌, some_eq, get_elem?, length,
}
use ssu_operating_system.Crossroad.{
  Point, facing, same, update, Road, Pc, asleep, awake, settling, gone, Manager, ready, resumed,
  before_middle, in_middle, before_end, in_end, over, System, enter_or_pass, is_last, wake_manager,
  job, arrive, all_finished, manage, manager_step, Step, vehicle, settle, manager, Reaches, here,
  then_step, launch,
}
use ssu_operating_system.Crossroad.Invariant.{
  Holds, missed, joins, same_refl, facing_other, enter_or_pass-enters, asleep-awake,
}
use ssu_operating_system.Crossroad.Order.{none-some, IsOrderly, Reaches-IsOrderly}
use ssu_operating_system.Crossroad.Safety.{Holds-turn, launch-IsOrderly}
use ssu_operating_system.Crossroad.Arrivals.{arrive-Arrives}

-- job0 is in the branch of a vehicle that faces the one on the crossroad.
abbrev is_amid : Manager → Bool
is_amid (resumed w) = true
is_amid (before_middle w) = true
is_amid (in_middle w) = true
is_amid _ = false

record IsShort (r : Road) (m : Manager) (jobs : Point → Pc) : Type 0 where
  one : length r.passed_list ≤ 1
  at_turn : (v : Point) → jobs v ≡ awake → r.passed_list ≡ []
  amid : is_amid m ≡ true → r.passed_list ≡ []

amid-before : (m : Manager) → is_amid (wake_manager m) ≡ true → is_amid m ≡ true
unfolding wake_manager
amid-before ready e = cc
amid-before (resumed w) e = refl
amid-before (before_middle w) e = refl
amid-before (in_middle w) e = refl
amid-before before_end e = cc
amid-before in_end e = cc
amid-before over e = cc

-- The vehicle that is signalled in that branch enters.
amid-enters :
    (m : Manager) (r : Road) (jobs : Point → Pc) (v : Point)
    → Holds m r jobs
    → is_amid m ≡ true
    → jobs v ≡ awake
    → r.process v ≡ 0
amid-enters ready r jobs v h e a = cc
amid-enters (resumed w) r jobs v (q, h) e a = absurd (q v a)
amid-enters (before_middle w) r jobs v (missed q h) e a = absurd (q v a)
amid-enters (before_middle w) r jobs v (joins o h) e a =
    subst (λ u. r.process u ≡ 0) (o v a) (h (facing w) ∙ rw (facing_other w))
amid-enters (in_middle w) r jobs v (missed q h) e a = absurd (q v a)
amid-enters (in_middle w) r jobs v (joins o h) e a =
    subst (λ u. r.process u ≡ 0) (o v a) (h (facing w) ∙ rw (facing_other w))
amid-enters before_end r jobs v h e a = cc
amid-enters in_end r jobs v h e a = cc
amid-enters over r jobs v h e a = cc

length-enter_or_pass :
    (v : Point) (r : Road) → r.passed_list ≡ [] → length (enter_or_pass v r).passed_list ≤ 1
unfolding enter_or_pass
length-enter_or_pass v r e =
    ground (arith, ap (λ l. length l) e, ap (λ l. length (l ++ (v ∷ []))) e)

true-false : true ≢ false
true-false e = cc

IsShort-job :
    (m : Manager) (r : Road) (jobs : Point → Pc) (v : Point) (pc : Pc) (finish : Point → Bool)
    → Holds m r jobs
    → jobs v ≡ awake
    → pc ≢ awake
    → IsShort r m jobs
    → IsShort (record (enter_or_pass v r) { finish = finish }) (wake_manager m) (update jobs v pc)
IsShort-job m r jobs v pc finish h a n k = record {
  one = length-enter_or_pass v r (k.at_turn v a);
  at_turn = λ u b. elim (Bool-cases (same v u)) [
    | inl own ↦ absurd (n (rw own at b))
    | inr other ↦ absurd (not_same v u other (Holds-turn m r jobs v u h a (rw other at b)).0)
  ];
  amid = λ e.
      let enters = amid-enters m r jobs v h (amid-before m e) a in
      rw (enter_or_pass-enters v r enters) (k.at_turn v a);
}
  where
    not_same : (v u : Point) → same v u ≡ false → v ≢ u
    not_same v u other e = true-false (sym (subst (λ j. same v j ≡ true) e (same_refl v)) ∙ other)

abbrev IsShortIn : System → Type 0
IsShortIn s = IsShort s.road s.job0 s.jobs

manager-IsShort :
    (m : Manager) (s s' : System)
    → manager_step s m ≡ some s'
    → Holds m s.road s.jobs
    → IsShort s.road m s.jobs
    → IsShortIn s'
unfolding manager_step manage
manager-IsShort ready s s' e (q, h) k = elim (Option-cases (arrive s.road)) [
  | inl bad ↦ absurd (none-some (rw bad at e))
  | inr (r, came) ↦
      subst IsShortIn (some_eq (rw came at e))
        (manage-IsShort r (arrive-Arrives s.road r came).cleared)
]
  where
    manage-IsShort : (r : Road) → r.passed_list ≡ [] → IsShortIn (manage s r)
    manage-IsShort r c = elim (Bool-cases (all_finished r)) [
      | inl all ↦
          rw all (record { one = omega (arith, ap length c); at_turn = λ v a. c; amid = λ b. c })
      | inr more ↦
          rw more (record { one = omega (arith, ap length c); at_turn = λ v a. c; amid = λ b. c })
    ]
manager-IsShort (resumed w) s s' e h k =
    subst IsShortIn (some_eq e)
      (record { one = k.one; at_turn = λ v a. k.amid refl; amid = λ b. cc })
manager-IsShort (before_middle w) s s' e h k =
    subst IsShortIn (some_eq e)
      (record { one = k.one; at_turn = k.at_turn; amid = λ b. k.amid refl })
manager-IsShort before_end s s' e h k =
    subst IsShortIn (some_eq e) (record { one = k.one; at_turn = k.at_turn; amid = λ b. cc })
manager-IsShort (in_middle w) s s' e h k = cc
manager-IsShort in_end s s' e h k = cc
manager-IsShort over s s' e h k = cc

settle-IsShort :
    (v : Point) (r : Road) (m : Manager) (jobs : Point → Pc)
    → IsShort r m jobs
    → IsShort r m (update jobs v asleep)
settle-IsShort v r m jobs k = record {
  one = k.one;
  at_turn = λ u b. elim (Bool-cases (same v u)) [
    | inl own ↦ absurd (asleep-awake (rw own at b))
    | inr other ↦ k.at_turn u (rw other at b)
  ];
  amid = k.amid;
}

Step-IsShort : {s t : System} → Step s t → IsOrderly s → IsShortIn s → IsShortIn t
unfolding job
Step-IsShort {s} (vehicle v a) h k = elim (Bool-cases (is_last v (enter_or_pass v s.road))) [
  | inl last ↦ rw last (
      IsShort-job s.job0 s.road s.jobs v gone (update (enter_or_pass v s.road).finish v true) h a
        (λ e. cc) k)
  | inr more ↦
      rw more (
        IsShort-job s.job0 s.road s.jobs v settling (enter_or_pass v s.road).finish h a (λ e. cc) k)
]
Step-IsShort {s} (settle v a) h k = settle-IsShort v s.road s.job0 s.jobs k
Step-IsShort {s} {t} (manager e) h k = manager-IsShort s.job0 s t e h k

Reaches-IsShort : {s t : System} → Reaches s t → IsOrderly s → IsShortIn s → IsShortIn t
Reaches-IsShort here h k = k
Reaches-IsShort (then_step p q) h k = Step-IsShort q (Reaches-IsOrderly p h) (Reaches-IsShort p h k)

launch-IsShort :
    (vehicles : List (Option Point)) (s : System) → launch vehicles ≡ some s → IsShortIn s
unfolding launch
launch-IsShort vehicles s e = elim (Option-cases (get_elem? vehicles 0)) [
  | inl empty ↦ absurd (none-some (rw empty at e))
  | inr (start, got) ↦
      subst IsShortIn (some_eq (rw got at e))
        (record { one = omega arith; at_turn = λ v a. refl; amid = λ b. refl })
]

-- In whatever order the threads go on, `passed_list` never has more than one vehicle, and so the
-- writes to its 10 entries are in range.
launch-passed_list :
    (vehicles : List (Option Point)) (s t : System)
    → launch vehicles ≡ some s
    → Reaches s t
    → length t.road.passed_list ≤ 1
launch-passed_list vehicles s t e p =
    (Reaches-IsShort p (launch-IsOrderly vehicles s e) (launch-IsShort vehicles s e)).one
