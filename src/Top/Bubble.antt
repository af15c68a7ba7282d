-- ===== src/Top/Bubble.antt =====
-- The bubble sort of SortProc in Assignment_2/mytop.c, for any test that `isGreater` may be.
use ssu_operating_system.Base.{
  ℕ, zero, suc, ◌-◌, ◌≡◌, refl, Bool, true, false, List, [], ◌∷◌, ◌++◌, if◌then◌else◌, length, All,
  arith, Bool-cases, inl, inr, ap, ◌∙◌, subst,
}
use mathlib.Core.List.{Perm, append-nil}
use mathlib.Core.List.Perm

-- Each element is in the relation with all that come after it.
abbrev pub IsSorted : {A : Type 0} → (A → A → Type 0) → List A → Type 0
IsSorted R [] = Unit {0}
IsSorted R (x ∷ xs) = All (R x) xs × IsSorted R xs

module _ {A : Type 0} (gt : A → A → Bool) where
  -- The inner loop, up to index `k`: each pair is put in order, and the greater goes on.
  pass : ℕ → List A → List A
  pass zero l = l
  pass (suc k) [] = []
  pass (suc k) (x ∷ []) = x ∷ []
  pass (suc k) (x ∷ y ∷ r) = (if gt x y then y else x) ∷ pass k ((if gt x y then x else y) ∷ r)

  sort_from : ℕ → List A → List A
  unfolding pass
  sort_from zero l = l
  sort_from (suc k) l = sort_from k (pass (suc k) l)

  unfoldable pub bubble_sort : List A → List A
  unfolding sort_from
  bubble_sort l = sort_from (length l - 1) l

  abbrev lo : A → A → A
  lo x y = if gt x y then y else x

  abbrev hi : A → A → A
  hi x y = if gt x y then x else y

  -- What a pass over `x ∷ xs` leaves at the end, and before it.
  top : A → List A → A
  top x [] = x
  top x (y ∷ r) = top (hi x y) r

  front : A → List A → List A
  front x [] = []
  front x (y ∷ r) = lo x y ∷ front (hi x y) r

  pass-split :
      (x : A) (xs ys : List A) → pass (length xs) (x ∷ (xs ++ ys)) ≡ front x xs ++ (top x xs ∷ ys)
  unfolding pass top front
  pass-split x [] ys = refl
  pass-split x (y ∷ r) ys = ap (λ l. lo x y ∷ l) (pass-split (hi x y) r ys)

  length-front : (x : A) (xs : List A) → length (front x xs) ≡ length xs
  unfolding front
  length-front x [] = refl
  length-front x (y ∷ r) = ap suc (length-front (hi x y) r)

  lo_hi-perm : (x y : A) (l : List A) → Perm (lo x y ∷ hi x y ∷ l) (x ∷ y ∷ l)
  lo_hi-perm x y l = elim (Bool-cases (gt x y)) [
    | inl greater ↦ rw greater (Perm.swap x y l)
    | inr not_greater ↦ rw not_greater (Perm.refl (x ∷ y ∷ l))
  ]

  pass-perm : (k : ℕ) (l : List A) → Perm (pass k l) l
  unfolding pass
  pass-perm zero l = Perm.refl l
  pass-perm (suc k) [] = Perm.refl []
  pass-perm (suc k) (x ∷ []) = Perm.refl (x ∷ [])
  pass-perm (suc k) (x ∷ y ∷ r) =
      Perm.trans (Perm.cons (lo x y) (pass-perm k (hi x y ∷ r))) (lo_hi-perm x y r)

  sort_from-perm : (k : ℕ) (l : List A) → Perm (sort_from k l) l
  unfolding sort_from
  sort_from-perm zero l = Perm.refl l
  sort_from-perm (suc k) l = Perm.trans (sort_from-perm k (pass (suc k) l)) (pass-perm (suc k) l)

  pub bubble_sort-perm : (l : List A) → Perm (bubble_sort l) l
  unfolding bubble_sort
  bubble_sort-perm l = sort_from-perm (length l - 1) l

  top-All : (P : A → Type 0) (x : A) (xs : List A) → P x → All P xs → P (top x xs)
  unfolding top
  top-All P x [] h k = h
  top-All P x (y ∷ r) h k = elim (Bool-cases (gt x y)) [
    | inl greater ↦ top-All P (hi x y) r (rw greater h) k.1
    | inr not_greater ↦ top-All P (hi x y) r (rw not_greater k.0) k.1
  ]

  front-All : (P : A → Type 0) (x : A) (xs : List A) → P x → All P xs → All P (front x xs)
  unfolding front
  front-All P x [] h k = tt
  front-All P x (y ∷ r) h k = elim (Bool-cases (gt x y)) [
    | inl greater ↦ (rw greater k.0, front-All P (hi x y) r (rw greater h) k.1)
    | inr not_greater ↦ (rw not_greater h, front-All P (hi x y) r (rw not_greater k.0) k.1)
  ]

  module _ (R : A → A → Type 0) (refl_R : (x : A) → R x x) (put : (x y : A) → gt x y ≡ true → R y x)
      (keep : (x y : A) → gt x y ≡ false → R x y)
      (trans : (x y z : A) → R x y → R y z → R x z) where
    lo-hi : (x y : A) → R (lo x y) (hi x y)
    lo-hi x y = elim (Bool-cases (gt x y)) [
      | inl greater ↦ rw greater (put x y greater)
      | inr not_greater ↦ rw not_greater (keep x y not_greater)
    ]

    hi-ge : (x y : A) → R x (hi x y)
    hi-ge x y = elim (Bool-cases (gt x y)) [
      | inl greater ↦ rw greater (refl_R x)
      | inr not_greater ↦ rw not_greater (keep x y not_greater)
    ]

    top-ge : (x : A) (xs : List A) → R x (top x xs)
    unfolding top
    top-ge x [] = refl_R x
    top-ge x (y ∷ r) = trans x (hi x y) (top (hi x y) r) (hi-ge x y) (top-ge (hi x y) r)

    front-top :
        (ys : List A) (x : A) (xs : List A)
        → All (λ z. All (R z) ys) (front x xs)
        → All (λ z. All (R z) (top x xs ∷ ys)) (front x xs)
    unfolding front top
    front-top ys x [] k = tt
    front-top ys x (y ∷ r) k = (
      (trans (lo x y) (hi x y) (top (hi x y) r) (lo-hi x y) (top-ge (hi x y) r), k.0),
      front-top ys (hi x y) r k.1,
    )

    sort_from-IsSorted :
        (k : ℕ) (xs ys : List A)
        → length xs ≡ suc k
        → IsSorted R ys
        → All (λ z. All (R z) ys) xs
        → IsSorted R (sort_from k (xs ++ ys))
    unfolding sort_from
    sort_from-IsSorted zero [] ys l s b = absurd (omega arith)
    sort_from-IsSorted zero (x ∷ []) ys l s b = (b.0, s)
    sort_from-IsSorted zero (x ∷ y ∷ xs) ys l s b = absurd (omega arith)
    sort_from-IsSorted (suc k) [] ys l s b = absurd (omega arith)
    sort_from-IsSorted (suc k) (x ∷ xs) ys l s b =
        let n : length xs ≡ suc k = omega arith in
        let split : pass (suc k) (x ∷ (xs ++ ys)) ≡ front x xs ++ (top x xs ∷ ys) =
          subst (λ j. pass j (x ∷ (xs ++ ys)) ≡ front x xs ++ (top x xs ∷ ys)) n
            (pass-split x xs ys) in
        rw split (
          sort_from-IsSorted k (front x xs) (top x xs ∷ ys) (length-front x xs ∙ n)
            (top-All (λ z. All (R z) ys) x xs b.0 b.1, s)
            (front-top ys x xs (front-All (λ z. All (R z) ys) x xs b.0 b.1)))

    before_nil : (xs : List A) → All (λ z. All (R z) []) xs
    before_nil [] = tt
    before_nil (x ∷ xs) = (tt, before_nil xs)

    pub bubble_sort-IsSorted : (l : List A) → IsSorted R (bubble_sort l)
    unfolding bubble_sort sort_from
    bubble_sort-IsSorted [] = tt
    bubble_sort-IsSorted (x ∷ xs) =
        let k : suc (length xs) - 1 ≡ length xs = omega arith in
        rw k (
          subst (λ l. IsSorted R (sort_from (length xs) l)) (append-nil (x ∷ xs))
            (sort_from-IsSorted (length xs) (x ∷ xs) [] refl tt (before_nil (x ∷ xs))))
