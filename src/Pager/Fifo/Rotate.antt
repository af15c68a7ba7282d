-- ===== src/Pager/Fifo/Rotate.antt =====
-- The frames of Assignment_5/simulator.c taken from the victim round: which pages, and in which order.
use ssu_operating_system.Base.{
  ℕ, zero, suc, ◌+◌, ◌<◌, ◌≤◌, ◌≡◌, refl, true, false, ◌||◌, inl, inr, List, [], ◌∷◌, ◌++◌, arith,
  ◌==◌, length, Bool-cases, set, ◌∙◌, take, drop, length-drop, sym, ap, take-append-drop,
}
use mathlib.Core.List.{append-nil, append_assoc}
use native.Mathlib.Numerals.{add-one}
use ssu_operating_system.Base.Int.{ℤ, is_negative, pos, negsuc}
use ssu_operating_system.Pager.Frames.{contains, no_empty, used}
use ssu_operating_system.Pager.Fifo.{after}

pub used-no_empty : (fs : List ℤ) → no_empty fs ≡ true → used fs ≡ fs
used-no_empty [] h = refl
used-no_empty (f ∷ fs) h = ground (arith, used-no_empty fs)

pub no_empty-drop : (v : ℕ) (fs : List ℤ) → no_empty fs ≡ true → no_empty (drop v fs) ≡ true
no_empty-drop zero fs h = h
no_empty-drop (suc v) [] h = refl
no_empty-drop (suc v) (f ∷ fs) h = no_empty-drop v fs (ground arith)

pub no_empty-take : (v : ℕ) (fs : List ℤ) → no_empty fs ≡ true → no_empty (take v fs) ≡ true
no_empty-take zero fs h = refl
no_empty-take (suc v) [] h = refl
no_empty-take (suc v) (f ∷ fs) h = ground (arith, no_empty-take v fs)

pub no_empty-set :
    (fs : List ℤ) (v : ℕ) (p : ℤ)
    → is_negative p ≡ false
    → no_empty fs ≡ true
    → no_empty (set fs v p) ≡ true
no_empty-set [] v p h e = refl
no_empty-set (f ∷ fs) zero p h e = ground arith
no_empty-set (f ∷ fs) (suc v) p h e = ground (arith, no_empty-set fs v p)

pub contains-append :
    (xs ys : List ℤ) (p : ℤ) → contains (xs ++ ys) p ≡ (contains xs p || contains ys p)
contains-append [] ys p = refl
contains-append (x ∷ xs) ys p = ground (arith, contains-append xs ys p)

pub contains-used :
    (fs : List ℤ) (p : ℤ) → is_negative p ≡ false → contains (used fs) p ≡ contains fs p
contains-used [] p h = refl
contains-used (pos f ∷ fs) p h = ground (arith, contains-used fs p)
contains-used (negsuc f ∷ fs) (pos p) h = contains-used fs (pos p) h
contains-used (negsuc f ∷ fs) (negsuc p) h = cc

-- Taking the frames from `v` on first loses no page.
pub contains-rotate :
    (v : ℕ) (fs : List ℤ) (p : ℤ)
    → (contains (drop v fs) p || contains (take v fs) p) ≡ contains fs p
contains-rotate zero fs p = ground arith
contains-rotate (suc v) [] p = refl
contains-rotate (suc v) (f ∷ fs) p = ground (arith, contains-rotate v fs p)

drop-set : (fs : List ℤ) (v : ℕ) (p : ℤ) → drop (suc v) (set fs v p) ≡ drop (suc v) fs
drop-set [] v p = refl
drop-set (f ∷ fs) zero p = refl
drop-set (f ∷ fs) (suc v) p = drop-set fs v p

take-set :
    (fs : List ℤ) (v : ℕ) (p : ℤ)
    → v < length fs
    → take (suc v) (set fs v p) ≡ take v fs ++ (p ∷ [])
take-set [] v p h = elim h [ ]
take-set (f ∷ fs) zero p h = refl
take-set (f ∷ fs) (suc v) p h = ap (λ r. f ∷ r) (take-set fs v p (omega arith))

drop-drop : (v : ℕ) (fs : List ℤ) → drop 1 (drop v fs) ≡ drop (suc v) fs
drop-drop zero fs = refl
drop-drop (suc v) [] = refl
drop-drop (suc v) (f ∷ fs) = drop-drop v fs

drop-append : (xs ys : List ℤ) → 0 < length xs → drop 1 (xs ++ ys) ≡ drop 1 xs ++ ys
drop-append [] ys h = elim h [ ]
drop-append (x ∷ xs) ys h = refl

drop-length : (n : ℕ) (xs : List ℤ) → length xs ≤ n → drop n xs ≡ []
drop-length zero [] h = refl
drop-length zero (x ∷ xs) h = absurd (omega arith)
drop-length (suc n) [] h = refl
drop-length (suc n) (x ∷ xs) h = drop-length n xs (omega arith)

-- The frames with `p` over the oldest page, from the one after it round.
round_end :
    (fs : List ℤ) (v : ℕ) (p : ℤ)
    → v < length fs
    → drop (after (length fs) v) (set fs v p) ++ take (after (length fs) v) (set fs v p)
      ≡ drop (suc v) fs ++ (take v fs ++ (p ∷ []))
unfolding after
round_end fs v p h = elim (Bool-cases (v + 1 == length fs)) [
  | inl last ↦
      let none_left : drop (suc v) fs ≡ [] = drop-length (suc v) fs (ground arith) in
      rw (last, append-nil, none_left)
        (sym (take-append-drop (suc v) (set fs v p))
          ∙ rw (take-set fs v p h, drop-set fs v p, none_left, append-nil))
  | inr more ↦ rw (more, add-one, drop-set fs v p, take-set fs v p h)
]

-- Writing over the oldest page and moving on is dropping the front and adding at the back.
pub rotate_lem :
    (fs : List ℤ) (v : ℕ) (p : ℤ)
    → v < length fs
    → drop (after (length fs) v) (set fs v p) ++ take (after (length fs) v) (set fs v p)
      ≡ drop 1 (drop v fs ++ take v fs) ++ (p ∷ [])
rotate_lem fs v p h =
    round_end fs v p h
    ∙ rw (drop-append (drop v fs) (take v fs) (omega (arith, length-drop v fs)), drop-drop v fs)
        (sym (append_assoc (drop (suc v) fs) (take v fs) (p ∷ [])))
