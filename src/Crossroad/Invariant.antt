-- ===== src/Crossroad/Invariant.antt =====
-- Who is on the crossroad of Assignment_6/program.c, and whose turn it is, after any steps.
use ssu_operating_system.Base.{
  ℕ, ◌+◌, ◌≡◌, refl, Bool, true, false, ◌||◌, inl, inr, ◌≢◌, Option, none, some, [], ◌∷◌, ◌++◌,
  if◌then◌else◌, arith, Bool-cases, subst,
}
use ssu_operating_system.Crossroad.{
  Point, p1, p2, p3, p4, facing, same, update, Road, Pc, asleep, awake, Manager, ready, resumed,
  before_middle, in_middle, before_end, in_end, over, enter_or_pass, wake_manager,
}

-- Who may be on the crossroad: nobody, one vehicle, or two that face each other.
abbrev pub Occupied : Option Point → (Point → ℕ) → Type 0
Occupied none process = (j : Point) → process j ≡ 0
Occupied (some i) process = (j : Point) → process j ≡ (if same i j then 1 else 0)

abbrev pub BothOn : Point → (Point → ℕ) → Type 0
BothOn i process = (j : Point) → process j ≡ (if same i j || same (facing i) j then 1 else 0)

pub data IsSafe (process : Point → ℕ) : Type 0 where
  one_or_none : (o : Option Point) → Occupied o process → IsSafe process
  both : (i : Point) → BothOn i process → IsSafe process

-- Nobody is signalled, or `v` alone is.
abbrev pub Quiet : (Point → Pc) → Type 0
Quiet jobs = (j : Point) → jobs j ≢ awake

abbrev pub Only : Point → (Point → Pc) → Type 0
Only v jobs = (j : Point) → jobs j ≡ awake → v ≡ j

-- What `where` will be at the next round.
abbrev pub next_place : Road → Option Point
next_place r = if r.temp then r.where_temp else r.place

-- Vehicle `v` has been signalled at the end of a round: it enters an empty crossroad, leaves it
-- empty, or leaves it to the vehicle that it faces.
pub data Turn (v : Point) (temp : Bool) (where_temp : Option Point) (process : Point → ℕ)
    : Type 0 where
  enters : temp ≡ false → Occupied none process → Turn v temp where_temp process
  leaves : temp ≡ false → Occupied (some v) process → Turn v temp where_temp process
  yields :
      temp ≡ true → where_temp ≡ some (facing v) → BothOn v process → Turn v temp where_temp process

-- The vehicles signalled and those on the crossroad, by where job0 stands.
pub data Waits (temp : Bool) (where_temp : Option Point) (process : Point → ℕ) (jobs : Point → Pc)
    : Type 0 where
  lost : Quiet jobs → IsSafe process → Waits temp where_temp process jobs
  turn :
      (v : Point)
      → Only v jobs
      → Turn v temp where_temp process
      → Waits temp where_temp process jobs

pub data WaitsMiddle (w : Point) (process : Point → ℕ) (jobs : Point → Pc) : Type 0 where
  missed : Quiet jobs → IsSafe process → WaitsMiddle w process jobs
  joins : Only (facing w) jobs → Occupied (some w) process → WaitsMiddle w process jobs

abbrev pub Holds : Manager → Road → (Point → Pc) → Type 0
Holds ready r jobs = Quiet jobs × Occupied (next_place r) r.process
Holds (resumed w) r jobs = Quiet jobs × (BothOn w r.process × (r.place ≡ some (facing w)))
Holds (before_middle w) r jobs = WaitsMiddle w r.process jobs
Holds (in_middle w) r jobs = WaitsMiddle w r.process jobs
Holds before_end r jobs = Waits r.temp r.where_temp r.process jobs
Holds in_end r jobs = Waits r.temp r.where_temp r.process jobs
Holds over r jobs = Quiet jobs × IsSafe r.process

pub same_refl : (v : Point) → same v v ≡ true
same_refl p1 = refl
same_refl _ = refl

not_facing : (v j : Point) → same v j ≡ true → same (facing v) j ≡ false
not_facing p1 p1 e = refl
not_facing p2 p2 e = refl
not_facing p3 p3 e = refl
not_facing p4 p4 e = refl
not_facing _ _ e = cc

pub same-eq : (v j : Point) → same v j ≡ true → v ≡ j
same-eq p1 p1 e = refl
same-eq p2 p2 e = refl
same-eq p3 p3 e = refl
same-eq p4 p4 e = refl
same-eq _ _ e = cc

pub enter_or_pass-enters :
    (v : Point) (r : Road)
    → r.process v ≡ 0
    → enter_or_pass v r ≡ record r { process = update r.process v 1; place = some v }
unfolding enter_or_pass
enter_or_pass-enters v r e = simp e refl

pub enter_or_pass-passes :
    (v : Point) (r : Road)
    → r.process v ≡ 1
    → enter_or_pass v r ≡ record r {
      passed_list = r.passed_list ++ (v ∷ []);
      job_count = update r.job_count v (r.job_count v + 1);
      process = update r.process v 0;
      place = none;
    }
unfolding enter_or_pass
enter_or_pass-passes v r e = simp e refl

-- After its turn the vehicle has left the crossroad as `next_place` says.
Turn-done :
    (v : Point) (r : Road)
    → Turn v r.temp r.where_temp r.process
    → Occupied (next_place (enter_or_pass v r)) (enter_or_pass v r).process
Turn-done v r (enters t h) = rw (enter_or_pass-enters v r (h v), t) (λ j. ground (arith, h j))
Turn-done v r (leaves t h) =
    rw (enter_or_pass-passes v r (ground (arith, h v, same_refl v)), t) (λ j. ground (arith, h j))
Turn-done v r (yields t e h) =
    rw (enter_or_pass-passes v r (ground (arith, h v, same_refl v)), t, e)
      (λ j. ground (arith, h j, not_facing v j))

pub facing_other : (v : Point) → same v (facing v) ≡ false
facing_other p1 = refl
facing_other _ = refl

-- The vehicle that faces `w` enters beside it.
WaitsMiddle-done :
    (w : Point) (r : Road)
    → Occupied (some w) r.process
    → BothOn w (enter_or_pass (facing w) r).process
      × ((enter_or_pass (facing w) r).place ≡ some (facing w))
WaitsMiddle-done w r h =
    rw (enter_or_pass-enters (facing w) r (ground (arith, h (facing w), facing_other w)))
      ((λ j. ground (arith, h j)), refl)

-- A turn is over when the vehicle signalled is no longer so.
Only-Quiet :
    (v : Point) (jobs : Point → Pc) (pc : Pc) → Only v jobs → pc ≢ awake → Quiet (update jobs v pc)
Only-Quiet v jobs pc o n j e = elim (Bool-cases (same v j)) [
  | inl own ↦ n (rw own at e)
  | inr other ↦
      let k : jobs j ≡ awake = rw other at e in
      ground (arith, other, same_refl v, subst (λ x. same v x ≡ true) (o j k) (same_refl v))
]

Quiet-update :
    (i : Point) (jobs : Point → Pc) (pc : Pc) → Quiet jobs → pc ≢ awake → Quiet (update jobs i pc)
Quiet-update i jobs pc q n j e = elim (Bool-cases (same i j)) [
  | inl own ↦ n (rw own at e)
  | inr other ↦ q j (rw other at e)
]

Only-update :
    (v i : Point) (jobs : Point → Pc) (pc : Pc)
    → Only v jobs
    → pc ≢ awake
    → Only v (update jobs i pc)
Only-update v i jobs pc o n j e = elim (Bool-cases (same i j)) [
  | inl own ↦ absurd (n (rw own at e))
  | inr other ↦ o j (rw other at e)
]

-- The round of a vehicle that has been signalled.
pub job-Holds :
    (i : Point) (m : Manager) (r : Road) (jobs : Point → Pc) (pc : Pc)
    → pc ≢ awake
    → jobs i ≡ awake
    → Holds m r jobs
    → Holds (wake_manager m) (enter_or_pass i r) (update jobs i pc)
unfolding wake_manager
job-Holds i ready r jobs pc n a (q, h) = absurd (q i a)
job-Holds i (resumed w) r jobs pc n a (q, h) = absurd (q i a)
job-Holds i over r jobs pc n a (q, h) = absurd (q i a)
job-Holds i (before_middle w) r jobs pc n a (missed q h) = absurd (q i a)
job-Holds i (before_middle w) r jobs pc n a (joins o h) =
    subst (λ v. WaitsMiddle w (enter_or_pass v r).process (update jobs v pc)) (o i a)
      (missed (Only-Quiet (facing w) jobs pc o n) (both w (WaitsMiddle-done w r h).0))
job-Holds i (in_middle w) r jobs pc n a (missed q h) = absurd (q i a)
job-Holds i (in_middle w) r jobs pc n a (joins o h) =
    subst (λ v. Holds (resumed w) (enter_or_pass v r) (update jobs v pc)) (o i a)
      (Only-Quiet (facing w) jobs pc o n, WaitsMiddle-done w r h)
job-Holds i before_end r jobs pc n a (lost q h) = absurd (q i a)
job-Holds i before_end r jobs pc n a (turn v o h) =
    subst (λ v. Holds before_end (enter_or_pass v r) (update jobs v pc)) (o i a)
      (lost (Only-Quiet v jobs pc o n) (one_or_none _ (Turn-done v r h)))
job-Holds i in_end r jobs pc n a (lost q h) = absurd (q i a)
job-Holds i in_end r jobs pc n a (turn v o h) =
    subst (λ v. Holds ready (enter_or_pass v r) (update jobs v pc)) (o i a)
      (Only-Quiet v jobs pc o n, Turn-done v r h)

pub asleep-awake : asleep ≢ awake
asleep-awake e = cc

rest_Quiet : (i : Point) (jobs : Point → Pc) → Quiet jobs → Quiet (update jobs i asleep)
rest_Quiet i jobs q = Quiet-update i jobs asleep q asleep-awake

rest_Only : (v i : Point) (jobs : Point → Pc) → Only v jobs → Only v (update jobs i asleep)
rest_Only v i jobs o = Only-update v i jobs asleep o asleep-awake

-- A thread that goes to its wait changes nothing of this.
pub settle-Holds :
    (i : Point) (m : Manager) (r : Road) (jobs : Point → Pc)
    → Holds m r jobs
    → Holds m r (update jobs i asleep)
settle-Holds i ready r jobs (q, h) = (rest_Quiet i jobs q, h)
settle-Holds i (resumed w) r jobs (q, h) = (rest_Quiet i jobs q, h)
settle-Holds i over r jobs (q, h) = (rest_Quiet i jobs q, h)
settle-Holds i (before_middle w) r jobs (missed q h) = missed (rest_Quiet i jobs q) h
settle-Holds i (before_middle w) r jobs (joins o h) = joins (rest_Only (facing w) i jobs o) h
settle-Holds i (in_middle w) r jobs (missed q h) = missed (rest_Quiet i jobs q) h
settle-Holds i (in_middle w) r jobs (joins o h) = joins (rest_Only (facing w) i jobs o) h
settle-Holds i before_end r jobs (lost q h) = lost (rest_Quiet i jobs q) h
settle-Holds i before_end r jobs (turn v o h) = turn v (rest_Only v i jobs o) h
settle-Holds i in_end r jobs (lost q h) = lost (rest_Quiet i jobs q) h
settle-Holds i in_end r jobs (turn v o h) = turn v (rest_Only v i jobs o) h
