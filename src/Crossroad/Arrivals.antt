-- ===== src/Crossroad/Arrivals.antt =====
-- The lists of Assignment_6/program.c at the start of a round of job0: the next vehicle goes from
-- `start_point_list` to `waiting_list`.
use native.Mathlib.Numerals.{add-one}
use ssu_operating_system.Base.{
  ℕ, zero, suc, ◌+◌, ◌≤◌, ◌≡◌, refl, inl, inr, Option, none, some, List, [], ◌∷◌, arith, Bool-cases,
  Option-cases, subst, some_eq, get_elem?, ltb, length, set, drop,
}
use ssu_operating_system.Crossroad.{Point, Road, queue_up, restore_place, arrive, remove, starts}
use ssu_operating_system.Crossroad.Order.{none-some}
use ssu_operating_system.Crossroad.Waiting.{is_from}

starts-set :
    (i v : Point) (ks : List (Option Point)) (x : ℕ)
    → starts i (set ks x (some v)) ≤ is_from i (some v) + starts i ks
unfolding starts
starts-set i v [] x = omega arith
starts-set i v (none ∷ ks) zero = omega arith
starts-set i v (some k ∷ ks) zero = omega arith
starts-set i v (none ∷ ks) (suc x) = starts-set i v ks x
starts-set i v (some k ∷ ks) (suc x) = omega (arith, starts-set i v ks x)

pub starts-drop :
    (i : Point) (vs : List (Option Point)) (n : ℕ) (o : Option Point)
    → get_elem? vs n ≡ some o
    → starts i (drop n vs) ≡ is_from i o + starts i (drop (suc n) vs)
unfolding starts
starts-drop i [] n o e = cc
starts-drop i (v ∷ vs) zero o e =
    subst (λ p. starts i (v ∷ vs) ≡ is_from i p + starts i vs) (some_eq e) (head_of v)
  where
    head_of : (p : Option Point) → starts i (p ∷ vs) ≡ is_from i p + starts i vs
    head_of none = omega arith
    head_of (some k) = refl
starts-drop i (v ∷ vs) (suc n) o e = starts-drop i vs n o e

-- The start of a round moves a vehicle from the list of start points to the waiting list.
pub record Arrives (r r' : Road) : Type 0 where
  pub passed : r'.job_count ≡ r.job_count
  pub crossing : r'.process ≡ r.process
  pub total : r'.p_count ≡ r.p_count
  pub ended : r'.finish ≡ r.finish
  pub cleared : r'.passed_list ≡ []
  pub lists :
      (i : Point)
      → starts i r'.waiting_list + starts i (drop r'.list_index r'.start_point_list)
        ≤ starts i r.waiting_list + starts i (drop r.list_index r.start_point_list)

restore_place-Arrives : (r r' : Road) → Arrives r r' → Arrives r (restore_place r')
unfolding restore_place
restore_place-Arrives r r' v = elim (Bool-cases r'.temp) [
  | inl back ↦ simp back (record {
    passed = v.passed;
    crossing = v.crossing;
    total = v.total;
    ended = v.ended;
    cleared = v.cleared;
    lists = v.lists;
  })
  | inr not_back ↦ simp not_back v
]

queue_up-Arrives :
    (o : Option Point) (r r' : Road)
    → get_elem? r.start_point_list r.list_index ≡ some o
    → queue_up o (record r { passed_list = []; list_index = r.list_index + 1; tick = r.tick + 1 })
      ≡ some r'
    → Arrives r r'
unfolding queue_up
queue_up-Arrives none r r' got e = subst (Arrives r) (some_eq e) (record {
  passed = refl;
  crossing = refl;
  total = refl;
  ended = refl;
  cleared = refl;
  lists = λ i. rw add-one (omega (arith, starts-drop i r.start_point_list r.list_index none got));
})
queue_up-Arrives (some v) r r' got e =
    elim (Bool-cases (ltb r.waiting_index (length r.waiting_list))) [
      | inl room ↦ subst (Arrives r) (some_eq (rw room at e)) (record {
        passed = refl;
        crossing = refl;
        total = refl;
        ended = refl;
        cleared = refl;
        lists = λ i. rw add-one (
            omega (
              arith,
              starts-drop i r.start_point_list r.list_index (some v) got,
              starts-set i v r.waiting_list r.waiting_index,
            ));
      })
      | inr full ↦ absurd (none-some (rw full at e))
    ]

pub arrive-Arrives : (r r' : Road) → arrive r ≡ some r' → Arrives r r'
unfolding arrive
arrive-Arrives r r' e = elim (Option-cases (get_elem? r.start_point_list r.list_index)) [
  | inl past_end ↦ absurd (none-some (rw past_end at e))
  | inr (start, got) ↦
      let begun : Road = record r {
        passed_list = [];
        list_index = r.list_index + 1;
        tick = r.tick + 1;
      } in
      elim (Option-cases (queue_up start begun)) [
        | inl full ↦ absurd (none-some (rw (got, full) at e))
        | inr (r'', queued) ↦
            subst (Arrives r) (some_eq (rw (got, queued) at e))
              (restore_place-Arrives r r'' (queue_up-Arrives start r r'' got queued))
      ]
]

set-starts : (i : Point) (ks : List (Option Point)) (x : ℕ) → starts i (set ks x none) ≤ starts i ks
unfolding starts
set-starts i [] x = omega arith
set-starts i (none ∷ ks) zero = omega arith
set-starts i (some k ∷ ks) zero = omega arith
set-starts i (none ∷ ks) (suc x) = set-starts i ks x
set-starts i (some k ∷ ks) (suc x) = omega (arith, set-starts i ks x)

pub remove-starts :
    (found : Option (Point × ℕ)) (ks : List (Option Point)) (i : Point)
    → starts i (remove found ks) ≤ starts i ks
unfolding remove
remove-starts none ks i = omega arith
remove-starts (some (k, x)) ks i = set-starts i ks x
