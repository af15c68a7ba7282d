-- ===== src/Crossroad/Prompt/Arrival.antt =====
-- The start of job0's round of Assignment_6/program.c, when the lists have room for what is left.
use native.Mathlib.Numerals.{add-one}
use ssu_operating_system.Base.{
  ℕ, zero, suc, ◌+◌, ◌≤◌, ◌<◌, ◌≡◌, refl, true, inl, inr, ◌≢◌, Option, none, some, List, [], ◌∷◌,
  arith, Bool-cases, sym, ◌∙◌, ltb, some_eq, get_elem?, get_elem?_lt, get_elem?-set_ne, set, drop,
  length, length-set,
}
use ssu_operating_system.Crossroad.{
  Point, p1, p2, p3, p4, Road, queue_up, restore_place, arrive, starts,
}
use ssu_operating_system.Crossroad.Invariant.{same_refl}
use ssu_operating_system.Crossroad.Waiting.{is_from}
use ssu_operating_system.Crossroad.Arrivals.{starts-drop}
use ssu_operating_system.Crossroad.Measure.{sum_points, number_of_vehicles}
use ssu_operating_system.Crossroad.Prompt.{IsPacked}

-- No vehicle waits behind `waiting_index`.
abbrev pub IsBlank : ℕ → List (Option Point) → Type 0
IsBlank n ks = (x : ℕ) (k : Point) → n ≤ x → get_elem? ks x ≢ some (some k)

-- The vehicle drawn is added to those that wait, and none is written over.
starts-set_blank :
    (i v : Point) (ks : List (Option Point)) (n : ℕ)
    → n < length ks
    → IsBlank n ks
    → starts i (set ks n (some v)) ≡ is_from i (some v) + starts i ks
unfolding starts
starts-set_blank i v [] n l b = absurd (omega arith)
starts-set_blank i v (none ∷ ks) zero l b = refl
starts-set_blank i v (some k ∷ ks) zero l b = absurd (b 0 k (omega arith) refl)
starts-set_blank i v (none ∷ ks) (suc n) l b =
    starts-set_blank i v ks n (omega arith) (λ x k m. b (suc x) k (omega arith))
starts-set_blank i v (some k ∷ ks) (suc n) l b =
    omega (arith, starts-set_blank i v ks n (omega arith) (λ x k m. b (suc x) k (omega arith)))

set-IsBlank :
    (v : Point) (ks : List (Option Point)) (n : ℕ)
    → IsBlank n ks
    → IsBlank (n + 1) (set ks n (some v))
set-IsBlank v ks n b x k m e =
    b x k (omega arith) (sym (get_elem?-set_ne ks n x (some v) (λ q. omega arith)) ∙ e)

none_left : (vs : List (Option Point)) → ((i : Point) → starts i vs ≡ 0) → IsPacked vs
unfolding starts
none_left [] h = tt
none_left (none ∷ vs) h = h
none_left (some v ∷ vs) h = absurd (ground (arith, h v, same_refl v))

-- Behind an entry that is 0 there is no vehicle.
pub IsPacked-next :
    (vs : List (Option Point)) (n : ℕ) (o : Option Point)
    → get_elem? vs n ≡ some o
    → IsPacked (drop n vs)
    → IsPacked (drop (suc n) vs) × (o ≡ none → (i : Point) → starts i (drop (suc n) vs) ≡ 0)
IsPacked-next [] n o e h = cc
IsPacked-next (none ∷ vs) zero o e h = (none_left vs h, λ q. h)
IsPacked-next (some v ∷ vs) zero o e h = (h, λ q. absurd (some-none (some_eq e ∙ q)))
  where
    some-none : some v ≢ none
    some-none q = cc
IsPacked-next (v ∷ vs) (suc n) o e h = IsPacked-next vs n o e h

number-drop-none :
    (vs : List (Option Point)) (n : ℕ)
    → get_elem? vs n ≡ some none
    → number_of_vehicles (drop n vs) ≡ number_of_vehicles (drop (suc n) vs)
number-drop-none vs n e = omega (
  arith,
  starts-drop p1 vs n none e,
  starts-drop p2 vs n none e,
  starts-drop p3 vs n none e,
  starts-drop p4 vs n none e,
)

pub number-drop-some :
    (v : Point) (vs : List (Option Point)) (n : ℕ)
    → get_elem? vs n ≡ some (some v)
    → number_of_vehicles (drop n vs) ≡ 1 + number_of_vehicles (drop (suc n) vs)
number-drop-some v vs n e = omega (
  arith,
  one v,
  starts-drop p1 vs n (some v) e,
  starts-drop p2 vs n (some v) e,
  starts-drop p3 vs n (some v) e,
  starts-drop p4 vs n (some v) e,
)
  where
    one : (u : Point) → sum_points (λ i. is_from i (some u)) ≡ 1
    one p1 = refl
    one p2 = refl
    one p3 = refl
    one p4 = refl

-- The next vehicle, if there is one, has come: none is lost or doubled, and there is room as before.
pub record Comes (r r' : Road) : Type 0 where
  pub index : r'.list_index ≡ r.list_index + 1
  pub vehicles : r'.start_point_list ≡ r.start_point_list
  pub lists :
      (i : Point)
      → starts i r'.waiting_list + starts i (drop r'.list_index r'.start_point_list)
        ≡ starts i r.waiting_list + starts i (drop r.list_index r.start_point_list)
  pub blank : IsBlank r'.waiting_index r'.waiting_list
  pub room :
      r'.waiting_index + number_of_vehicles (drop r'.list_index r'.start_point_list)
      ≤ length r'.waiting_list
  pub packed : IsPacked (drop r'.list_index r'.start_point_list)
  pub last_waits :
      ((i : Point) → starts i r'.waiting_list ≡ 0)
      → (i : Point) → starts i (drop r'.list_index r'.start_point_list) ≡ 0

restore_place-Comes : (r r' : Road) → Comes r r' → Comes r (restore_place r')
unfolding restore_place
restore_place-Comes r r' c = elim (Bool-cases r'.temp) [
  | inl back ↦ simp back (record {
    index = c.index;
    vehicles = c.vehicles;
    lists = c.lists;
    blank = c.blank;
    room = c.room;
    packed = c.packed;
    last_waits = c.last_waits;
  })
  | inr not_back ↦ simp not_back c
]

abbrev begun : Road → Road
begun r = record r { passed_list = []; list_index = r.list_index + 1; tick = r.tick + 1 }

queue_up-Comes :
    (o : Option Point) (r : Road)
    → get_elem? r.start_point_list r.list_index ≡ some o
    → IsBlank r.waiting_index r.waiting_list
    → r.waiting_index + number_of_vehicles (drop r.list_index r.start_point_list)
      ≤ length r.waiting_list
    → IsPacked (drop r.list_index r.start_point_list)
    → (r' : Road) × (queue_up o (begun r) ≡ some r') × Comes r r'
unfolding queue_up
queue_up-Comes none r got b l p =
    let (packed, last) = IsPacked-next r.start_point_list r.list_index none got p in
    (
      begun r,
      refl,
      record {
        index = refl;
        vehicles = refl;
        lists =
            λ i. rw add-one (omega (arith, starts-drop i r.start_point_list r.list_index none got));
        blank = b;
        room =
            rw (add-one r.list_index)
              (omega (arith, l, number-drop-none r.start_point_list r.list_index got));
        packed = rw add-one packed;
        last_waits = λ h i. rw add-one (last refl i);
      },
    )
queue_up-Comes (some v) r got b l p =
    let (packed, last) = IsPacked-next r.start_point_list r.list_index (some v) got p in
    let fewer = number-drop-some v r.start_point_list r.list_index got in
    let inside : r.waiting_index < length r.waiting_list = omega (arith, l, fewer) in
    let has_room : ltb r.waiting_index (length r.waiting_list) ≡ true = ground (arith, inside) in
    (
      record (begun r) {
        waiting_list = set r.waiting_list r.waiting_index (some v);
        waiting_index = r.waiting_index + 1;
      },
      rw has_room refl,
      record {
        index = refl;
        vehicles = refl;
        lists = λ i. rw add-one (
            omega (
              arith,
              starts-drop i r.start_point_list r.list_index (some v) got,
              starts-set_blank i v r.waiting_list r.waiting_index inside b,
            ));
        blank = set-IsBlank v r.waiting_list r.waiting_index b;
        room =
            rw (add-one r.list_index)
              (omega (arith, l, fewer, length-set r.waiting_list r.waiting_index (some v)));
        packed = rw add-one packed;
        last_waits = λ h i. absurd (
            ground (
              arith,
              h v,
              same_refl v,
              starts-set_blank v v r.waiting_list r.waiting_index inside b,
            ));
      },
    )

-- job0's round starts without an access out of range.
pub arrive-Comes :
    (r : Road)
    → r.list_index < length r.start_point_list
    → IsBlank r.waiting_index r.waiting_list
    → r.waiting_index + number_of_vehicles (drop r.list_index r.start_point_list)
      ≤ length r.waiting_list
    → IsPacked (drop r.list_index r.start_point_list)
    → (r' : Road) × (arrive r ≡ some r') × Comes r r'
unfolding arrive
arrive-Comes r n b l p =
    let (start, got) = get_elem?_lt r.start_point_list r.list_index n in
    let (r', queued, c) = queue_up-Comes start r got b l p in
    (restore_place r', rw (got, queued) refl, restore_place-Comes r r' c)
