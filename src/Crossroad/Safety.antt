-- ===== src/Crossroad/Safety.antt =====
-- Who is on the crossroad of Assignment_6/program.c, and whose turn it is, from the state that `main`
-- leaves on.
use ssu_operating_system.Base.{
  ℕ, ◌≤◌, ◌≡◌, refl, false, ◌⊎◌, inl, inr, ◌≢◌, Option, none, some, List, ◌==◌, if◌then◌else◌,
  arith, Bool-cases, Option-cases, subst, sym, ◌∙◌, some_eq, get_elem?,
}
use ssu_operating_system.Crossroad.{
  Point, p1, p2, p3, p4, facing, same, Road, Pc, asleep, awake, gone, Manager, ready, resumed,
  before_middle, in_middle, before_end, in_end, over, System, signal, Reaches, launch, starts,
}
use ssu_operating_system.Crossroad.Invariant.{
  Occupied, BothOn, IsSafe, one_or_none, both, Quiet, next_place, enters, leaves, yields, Waits,
  lost, turn, missed, joins, Holds, same-eq,
}
use ssu_operating_system.Crossroad.Order.{none-some, IsOrderly, Reaches-IsOrderly, wake-Waits}

gone-awake : gone ≢ awake
gone-awake e = cc

asleep-awake : asleep ≢ awake
asleep-awake e = cc

-- The threads at their first waits.
abbrev pub launched_jobs : List (Option Point) → Point → Pc
launched_jobs vehicles i = if starts i vehicles == 0 then gone else asleep

pub launched_jobs-Quiet : (vehicles : List (Option Point)) → Quiet (launched_jobs vehicles)
launched_jobs-Quiet vehicles j h = elim (Bool-cases (starts j vehicles == 0)) [
  | inl none_here ↦ gone-awake (rw none_here at h)
  | inr some_here ↦ asleep-awake (rw some_here at h)
]

-- The state that `main` leaves is in order.
pub launch-IsOrderly :
    (vehicles : List (Option Point)) (s : System) → launch vehicles ≡ some s → IsOrderly s
unfolding launch
launch-IsOrderly vehicles s e = elim (Option-cases (get_elem? vehicles 0)) [
  | inl empty ↦ absurd (none-some (rw empty at e))
  | inr (start, got) ↦ subst IsOrderly (some_eq (rw got at e)) (launched start)
]
  where
    launched :
        (start : Option Point) → Waits false none (λ i. 0) (signal start (launched_jobs vehicles))
    launched none = lost (launched_jobs-Quiet vehicles) (one_or_none none (λ j. refl))
    launched (some v) =
        wake-Waits v false none (λ i. 0) (launched_jobs vehicles) (launched_jobs-Quiet vehicles)
          (one_or_none none (λ j. refl)) (enters refl (λ j. refl))

pub Holds-IsSafe : (m : Manager) (r : Road) (jobs : Point → Pc) → Holds m r jobs → IsSafe r.process
Holds-IsSafe ready r jobs (q, h) = one_or_none (next_place r) h
Holds-IsSafe (resumed w) r jobs (q, (h, k)) = both w h
Holds-IsSafe (before_middle w) r jobs (missed q h) = h
Holds-IsSafe (before_middle w) r jobs (joins o h) = one_or_none (some w) h
Holds-IsSafe (in_middle w) r jobs (missed q h) = h
Holds-IsSafe (in_middle w) r jobs (joins o h) = one_or_none (some w) h
Holds-IsSafe before_end r jobs (lost q h) = h
Holds-IsSafe before_end r jobs (turn v o (enters t h)) = one_or_none none h
Holds-IsSafe before_end r jobs (turn v o (leaves t h)) = one_or_none (some v) h
Holds-IsSafe before_end r jobs (turn v o (yields t e h)) = both v h
Holds-IsSafe in_end r jobs (lost q h) = h
Holds-IsSafe in_end r jobs (turn v o (enters t h)) = one_or_none none h
Holds-IsSafe in_end r jobs (turn v o (leaves t h)) = one_or_none (some v) h
Holds-IsSafe in_end r jobs (turn v o (yields t e h)) = both v h
Holds-IsSafe over r jobs (q, h) = h

pub Holds-turn :
    (m : Manager) (r : Road) (jobs : Point → Pc) (i j : Point)
    → Holds m r jobs
    → jobs i ≡ awake
    → jobs j ≡ awake
    → (i ≡ j) × (m ≢ ready)
Holds-turn ready r jobs i j (q, h) a b = absurd (q i a)
Holds-turn (resumed w) r jobs i j (q, h) a b = absurd (q i a)
Holds-turn (before_middle w) r jobs i j (missed q h) a b = absurd (q i a)
Holds-turn (before_middle w) r jobs i j (joins o h) a b = (sym (o i a) ∙ o j b, λ e. cc)
Holds-turn (in_middle w) r jobs i j (missed q h) a b = absurd (q i a)
Holds-turn (in_middle w) r jobs i j (joins o h) a b = (sym (o i a) ∙ o j b, λ e. cc)
Holds-turn before_end r jobs i j (lost q h) a b = absurd (q i a)
Holds-turn before_end r jobs i j (turn v o h) a b = (sym (o i a) ∙ o j b, λ e. cc)
Holds-turn in_end r jobs i j (lost q h) a b = absurd (q i a)
Holds-turn in_end r jobs i j (turn v o h) a b = (sym (o i a) ∙ o j b, λ e. cc)
Holds-turn over r jobs i j (q, h) a b = absurd (q i a)

facing-facing : (v : Point) → facing (facing v) ≡ v
facing-facing p1 = refl
facing-facing p2 = refl
facing-facing p3 = refl
facing-facing p4 = refl

one-same : (v i : Point) (process : Point → ℕ) → Occupied (some v) process → process i ≡ 1 → v ≡ i
one-same v i process h e = same-eq v i (ground (arith, h i))

both-same :
    (v i : Point) (process : Point → ℕ)
    → BothOn v process
    → process i ≡ 1
    → (v ≡ i) ⊎ (facing v ≡ i)
both-same v i process h e = elim (Bool-cases (same v i)) [
  | inl own ↦ inl (same-eq v i own)
  | inr other ↦ inr (same-eq (facing v) i (ground (arith, h i)))
]

both-facing :
    (v i j : Point) → (v ≡ i) ⊎ (facing v ≡ i) → (v ≡ j) ⊎ (facing v ≡ j) → (i ≡ j) ⊎ (facing i ≡ j)
both-facing v i j (inl e) (inl k) = inl (sym e ∙ k)
both-facing v i j (inl e) (inr k) = inr (subst (λ x. facing x ≡ j) e k)
both-facing v i j (inr e) (inl k) = inr (subst (λ x. facing x ≡ j) e (facing-facing v ∙ k))
both-facing v i j (inr e) (inr k) = inl (sym e ∙ k)

pub IsSafe-facing :
    (process : Point → ℕ)
    → IsSafe process
    → (i j : Point) → (process i ≤ 1) × (process i ≡ 1 → process j ≡ 1 → (i ≡ j) ⊎ (facing i ≡ j))
IsSafe-facing process (one_or_none none h) i j =
    (omega (arith, h i), λ e k. absurd (omega (arith, h i)))
IsSafe-facing process (one_or_none (some v) h) i j =
    (ground (arith, h i), λ e k. inl (sym (one-same v i process h e) ∙ one-same v j process h k))
IsSafe-facing process (both v h) i j = (
  ground (arith, h i),
  λ e k. both-facing v i j (both-same v i process h e) (both-same v j process h k),
)

-- In whatever order the threads go on from the state that `main` leaves, with signals lost or not,
-- two vehicles that are on the crossroad at once come from points that face each other.
pub launch-exclusion :
    (vehicles : List (Option Point)) (s t : System) (i j : Point)
    → launch vehicles ≡ some s
    → Reaches s t
    → t.road.process i ≡ 1
    → t.road.process j ≡ 1
    → (i ≡ j) ⊎ (facing i ≡ j)
launch-exclusion vehicles s t i j e p a b =
    (IsSafe-facing t.road.process
        (Holds-IsSafe t.job0 t.road t.jobs (Reaches-IsOrderly p (launch-IsOrderly vehicles s e))) i
        j).1
      a b

-- In whatever order the threads go on, at most one vehicle's thread is signalled at a time, and none
-- while job0 begins a round: the threads take turns, though they share no mutex.
pub launch-turns :
    (vehicles : List (Option Point)) (s t : System) (i j : Point)
    → launch vehicles ≡ some s
    → Reaches s t
    → t.jobs i ≡ awake
    → t.jobs j ≡ awake
    → (i ≡ j) × (t.job0 ≢ ready)
launch-turns vehicles s t i j e p a b =
    Holds-turn t.job0 t.road t.jobs i j (Reaches-IsOrderly p (launch-IsOrderly vehicles s e)) a b
