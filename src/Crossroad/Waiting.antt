-- ===== src/Crossroad/Waiting.antt =====
-- `waiting_list` of Assignment_6/program.c over a round of job0: which vehicle is taken from it, and
-- that none is lost or doubled.
use native.Mathlib.Nat.{zero-add}
use ssu_operating_system.Base.{
  ℕ, zero, suc, ◌+◌, ◌≡◌, refl, true, inl, inr, Option, none, some, List, [], ◌∷◌, if◌then◌else◌,
  arith, Bool-cases, Option-cases, subst, sym, ap, ◌∙◌, some_eq, get_elem?, set,
}
use ssu_operating_system.Crossroad.{
  Point, facing, same, find_facing, find_first, pick, remove, dispatch, starts,
}
use ssu_operating_system.Crossroad.Invariant.{same-eq, same_refl}

-- The key found stands at the index found.
abbrev Stands : List (Option Point) → ℕ → ℕ → Point → Type 0
Stands ks i j k = (x : ℕ) × (j ≡ i + x) × (get_elem? ks x ≡ some (some k))

Stands-cons :
    (o : Option Point) (ks : List (Option Point)) (i j : ℕ) (k : Point)
    → Stands ks (suc i) j k
    → Stands (o ∷ ks) i j k
Stands-cons o ks i j k (x, e, at) = (suc x, omega (arith, e), at)

find_first-Stands :
    (ks : List (Option Point)) (i j : ℕ) (k : Point)
    → find_first ks i ≡ some (k, j)
    → Stands ks i j k
unfolding find_first
find_first-Stands [] i j k e = cc
find_first-Stands (none ∷ ks) i j k e =
    Stands-cons none ks i j k (find_first-Stands ks (suc i) j k e)
find_first-Stands (some v ∷ ks) i j k e =
    (0, omega (arith, ap (λ p. p.1) (some_eq e)), ap (λ p. some (some p.0)) (some_eq e))

find_facing-Stands :
    (w : Point) (ks : List (Option Point)) (i j : ℕ) (k : Point)
    → find_facing w ks i ≡ some (k, j)
    → Stands ks i j k × (facing w ≡ k)
unfolding find_facing
find_facing-Stands w [] i j k e = cc
find_facing-Stands w (none ∷ ks) i j k e =
    let (at, faces) = find_facing-Stands w ks (suc i) j k e in (Stands-cons none ks i j k at, faces)
find_facing-Stands w (some v ∷ ks) i j k e = elim (Bool-cases (same (facing w) v)) [
  | inl faces_it ↦
      let found : (v, i) ≡ (k, j) = some_eq (rw faces_it at e) in
      (
        (0, omega (arith, ap (λ p. p.1) found), ap (λ p. some (some p.0)) found),
        same-eq (facing w) v faces_it ∙ ap (λ p. p.0) found,
      )
  | inr not_yet ↦
      let (at, faces) = find_facing-Stands w ks (suc i) j k (rw not_yet at e) in
      (Stands-cons (some v) ks i j k at, faces)
]

-- A vehicle that faces `w` is found if there is one.
find_facing-some :
    (w : Point) (ks : List (Option Point)) (i x : ℕ)
    → get_elem? ks x ≡ some (some (facing w))
    → (j : ℕ) × (find_facing w ks i ≡ some (facing w, j))
unfolding find_facing
find_facing-some w [] i x e = cc
find_facing-some w (none ∷ ks) i zero e = cc
find_facing-some w (none ∷ ks) i (suc x) e = find_facing-some w ks (suc i) x e
find_facing-some w (some v ∷ ks) i zero e =
    let faces : facing w ≡ v = sym (some_eq (some_eq e)) in
    (
      i,
      rw (subst (λ u. same (facing w) u ≡ true) faces (same_refl (facing w)))
          (ap (λ u. some (u, i)) (sym faces)),
    )
find_facing-some w (some v ∷ ks) i (suc x) e = elim (Bool-cases (same (facing w) v)) [
  | inl faces_it ↦ (i, rw faces_it (ap (λ u. some (u, i)) (sym (same-eq (facing w) v faces_it))))
  | inr not_yet ↦ let (j, found) = find_facing-some w ks (suc i) x e in (j, rw not_yet found)
]

pick-Stands :
    (o : Option Point) (ks : List (Option Point)) (k : Point) (j : ℕ)
    → pick o ks ≡ some (k, j)
    → Stands ks 0 j k
unfolding pick
pick-Stands none ks k j e = find_first-Stands ks 0 j k e
pick-Stands (some w) ks k j e = elim (Option-cases (find_facing w ks 0)) [
  | inl nobody ↦ find_first-Stands ks 0 j k (rw (nobody, pick) at e)
  | inr ((k', j'), found) ↦ (find_facing-Stands w ks 0 j k (found ∙ rw (found, pick) at e)).0
]

-- Where a vehicle that faces the one on the crossroad waits, job0 takes one that does.
pick-facing :
    (w : Point) (ks : List (Option Point)) (x : ℕ)
    → get_elem? ks x ≡ some (some (facing w))
    → (j : ℕ) × (pick (some w) ks ≡ some (facing w, j)) × (get_elem? ks j ≡ some (some (facing w)))
unfolding pick
pick-facing w ks x e =
    let (j, found) = find_facing-some w ks 0 x e in
    let picked : pick (some w) ks ≡ some (facing w, j) = rw (found, pick) refl in
    let (y, same_place, at) = pick-Stands (some w) ks (facing w) j picked in
    (
      j,
      picked,
      subst (λ z. get_elem? ks z ≡ some (some (facing w))) (sym (same_place ∙ zero-add y)) at,
    )

-- The vehicle that leaves the list for the crossroad.
abbrev pub entering : Option Point → Option (Point × ℕ) → Option Point
entering o none = none
entering none (some (k, i)) = some k
entering (some w) (some (k, i)) = if same (facing w) k then some k else none

abbrev pub is_from : Point → Option Point → ℕ
is_from i none = 0
is_from i (some k) = if same k i then 1 else 0

pub starts-remove :
    (i k : Point) (ks : List (Option Point)) (x : ℕ)
    → get_elem? ks x ≡ some (some k)
    → starts i ks ≡ is_from i (some k) + starts i (set ks x none)
unfolding starts
starts-remove i k [] x e = cc
starts-remove i k (o ∷ ks) zero e =
    subst (λ p. starts i (p ∷ ks) ≡ is_from i (some k) + starts i ks) (sym (some_eq e)) refl
starts-remove i k (none ∷ ks) (suc x) e = starts-remove i k ks x e
starts-remove i k (some v ∷ ks) (suc x) e = ground (arith, starts-remove i k ks x e)

pub set-restore :
    (k : Point) (ks : List (Option Point)) (x : ℕ)
    → get_elem? ks x ≡ some (some k)
    → set (set ks x none) x (some k) ≡ ks
set-restore k [] x e = refl
set-restore k (o ∷ ks) zero e = ap (λ p. p ∷ ks) (sym (some_eq e))
set-restore k (o ∷ ks) (suc x) e = ap (λ r. o ∷ r) (set-restore k ks x e)

pub found-at :
    (o : Option Point) (ks : List (Option Point)) (k : Point) (j : ℕ)
    → pick o ks ≡ some (k, j)
    → get_elem? ks j ≡ some (some k)
found-at o ks k j e =
    let (x, same_place, at) = pick-Stands o ks k j e in
    subst (λ z. get_elem? ks z ≡ some (some k)) (sym (same_place ∙ zero-add x)) at

-- A round of job0 keeps the vehicles that wait, from each start point, but for one that it lets on
-- the crossroad: a vehicle taken from the list that may not go is put back where it was.
pub dispatch-starts :
    (o : Option Point) (ks : List (Option Point)) (i : Point)
    → starts i ks
      ≡ is_from i (entering o (pick o ks))
        + starts i (dispatch o (pick o ks) (remove (pick o ks) ks)).1
unfolding dispatch remove
dispatch-starts o ks i = elim (Option-cases (pick o ks)) [
  | inl nobody ↦ rw nobody (nobody-taken o)
  | inr ((k, j), found) ↦ rw found (taken o k j (found-at o ks k j found))
]
  where
    nobody-taken :
        (p : Option Point) → starts i ks ≡ 0 + starts i (dispatch p none (remove none ks)).1
    nobody-taken none = sym (zero-add (starts i ks))
    nobody-taken (some w) = sym (zero-add (starts i ks))

    taken :
        (p : Option Point) (k : Point) (j : ℕ)
        → get_elem? ks j ≡ some (some k)
        → starts i ks
          ≡ is_from i (entering p (some (k, j)))
            + starts i (dispatch p (some (k, j)) (remove (some (k, j)) ks)).1
    taken none k j at = starts-remove i k ks j at
    taken (some w) k j at = elim (Bool-cases (same (facing w) k)) [
      | inl faces_it ↦ rw faces_it (starts-remove i k ks j at)
      | inr other ↦ rw (other, set-restore k ks j at) (sym (zero-add (starts i ks)))
    ]
