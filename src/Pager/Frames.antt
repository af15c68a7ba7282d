-- ===== src/Pager/Frames.antt =====
-- The frames of Assignment_5/simulator.c as a set of pages: what they hold, in what shape, and how
-- the first loop over them and a write change both.
use ssu_operating_system.Base.{
  ◌++◌, if◌then◌else◌, All, Bool-cases, inl, inr, ap, ℕ, zero, suc, ◌<◌, ◌≡◌, refl, Bool, true,
  false, ◌||◌, ◌&&◌, not, some, List, [], ◌∷◌, arith, length, set, get_elem?,
}
use ssu_operating_system.Base.Int.{ℤ, pos, negsuc, eqb, is_negative, eqb_iff}
use ssu_operating_system.Pager.{Probe, hit, vacant, full, next, probe}

-- `p` stands in `fs`.
abbrev pub contains : List ℤ → ℤ → Bool
contains [] p = false
contains (f ∷ fs) p = eqb f p || contains fs p

-- No page stands in two frames.
abbrev pub IsDistinct : List ℤ → Type 0
IsDistinct [] = Unit {0}
IsDistinct (f ∷ fs) = ((is_negative f || not (contains fs f)) ≡ true) × IsDistinct fs

-- Every page in a frame has been referenced.
abbrev pub IsSeen : List ℤ → List ℤ → Type 0
IsSeen past [] = Unit {0}
IsSeen past (f ∷ fs) = ((is_negative f || contains past f) ≡ true) × IsSeen past fs

abbrev pub all_empty : List ℤ → Bool
all_empty [] = true
all_empty (f ∷ fs) = is_negative f && all_empty fs

-- The empty frames come after those in use.
abbrev pub IsPacked : List ℤ → Type 0
IsPacked [] = Unit {0}
IsPacked (f ∷ fs) = ((not (is_negative f) || all_empty fs) ≡ true) × IsPacked fs

-- The pages in the frames, in the order of the frames.
abbrev pub used : List ℤ → List ℤ
used [] = []
used (f ∷ fs) = if is_negative f then used fs else f ∷ used fs

abbrev pub no_empty : List ℤ → Bool
no_empty [] = true
no_empty (f ∷ fs) = not (is_negative f) && no_empty fs

all_empty-not_contains :
    (fs : List ℤ) (p : ℤ) → is_negative p ≡ false → all_empty fs ≡ true → contains fs p ≡ false
all_empty-not_contains [] p h e = refl
all_empty-not_contains (pos f ∷ fs) p h e = ground arith
all_empty-not_contains (negsuc f ∷ fs) (pos p) h e =
    ground (arith, all_empty-not_contains fs (pos p) h)
all_empty-not_contains (negsuc f ∷ fs) (negsuc p) h e = ground arith

-- What the end of the first loop says of the frames.
abbrev pub Found : ℤ → List ℤ → Probe → Type 0
Found p fs (hit j) = (j < length fs) × (get_elem? fs j ≡ some p) × (contains fs p ≡ true)
Found p fs (vacant j) =
    (j < length fs)
    × (contains fs p ≡ false)
    × IsPacked (set fs j p)
    × (used (set fs j p) ≡ used fs ++ (p ∷ []))
    × (length (used fs) < length fs)
Found p fs full = (contains fs p ≡ false) × (no_empty fs ≡ true)

used-all_empty : (fs : List ℤ) → all_empty fs ≡ true → used fs ≡ []
used-all_empty [] e = refl
used-all_empty (pos f ∷ fs) e = cc
used-all_empty (negsuc f ∷ fs) e = used-all_empty fs e

Found-next :
    (p f : ℤ) (fs : List ℤ) (r : Probe)
    → eqb f p ≡ false
    → is_negative f ≡ false
    → Found p fs r
    → Found p (f ∷ fs) (next r)
unfolding next
Found-next p f fs (hit j) e n h = ground arith
Found-next p f fs (vacant j) e n h = ground arith
Found-next p f fs full e n h = ground arith

pub probe-Found :
    (p : ℤ) (fs : List ℤ) → is_negative p ≡ false → IsPacked fs → Found p fs (probe p fs)
unfolding probe
probe-Found p [] h k = ground arith
probe-Found p (f ∷ fs) h k = elim (Bool-cases (eqb f p)) [
  | inl same ↦ rw same (omega arith, ap some ((eqb_iff f p).0 same), ground arith)
  | inr other ↦ elim (Bool-cases (is_negative f)) [
    | inl empty ↦
        rw (other, empty)
          (
            omega arith,
            ground (arith, all_empty-not_contains fs p h),
            ground arith,
            rw (empty, h, used-all_empty fs (ground arith)),
            rw (empty, used-all_empty fs (ground arith)) (omega arith),
          )
    | inr used ↦
        rw (other, used) (Found-next p f fs (probe p fs) other used (probe-Found p fs h k.1))
  ]
]

eqb_refl : (a : ℤ) → eqb a a ≡ true
eqb_refl a = (eqb_iff a a).1 refl

pub contains-set_self :
    (fs : List ℤ) (j : ℕ) (p : ℤ) → j < length fs → contains (set fs j p) p ≡ true
contains-set_self [] j p h = elim h [ ]
contains-set_self (f ∷ fs) zero p h = ground (arith, eqb_refl p)
contains-set_self (f ∷ fs) (suc j) p h = ground (arith, contains-set_self fs j p)

-- A write adds its page and no other.
contains-set_le :
    (fs : List ℤ) (j : ℕ) (p q : ℤ)
    → contains fs q ≡ false
    → eqb p q ≡ false
    → contains (set fs j p) q ≡ false
contains-set_le [] j p q h e = refl
contains-set_le (f ∷ fs) zero p q h e = ground arith
contains-set_le (f ∷ fs) (suc j) p q h e = ground (arith, contains-set_le fs j p q)

pub eqb_symm : (a b : ℤ) → eqb a b ≡ eqb b a
eqb_symm (pos a) (pos b) = ground arith
eqb_symm (pos a) (negsuc b) = refl
eqb_symm (negsuc a) (pos b) = refl
eqb_symm (negsuc a) (negsuc b) = ground arith

-- Writing a page that is in no frame keeps the pages distinct, and so it does with the rest.
pub set-IsDistinct :
    (fs : List ℤ) (j : ℕ) (p : ℤ) → contains fs p ≡ false → IsDistinct fs → IsDistinct (set fs j p)
set-IsDistinct [] j p h d = tt
set-IsDistinct (f ∷ fs) zero p h d = ground arith
set-IsDistinct (f ∷ fs) (suc j) p h d =
    ground (arith, set-IsDistinct fs j p, contains-set_le fs j p f, eqb_symm f p)

pub IsSeen-cons : (past fs : List ℤ) (p : ℤ) → IsSeen past fs → IsSeen (p ∷ past) fs
IsSeen-cons past [] p s = tt
IsSeen-cons past (f ∷ fs) p s = ground (arith, IsSeen-cons past fs p)

pub set-IsSeen :
    (past fs : List ℤ) (j : ℕ) (p : ℤ) → IsSeen past fs → IsSeen (p ∷ past) (set fs j p)
set-IsSeen past [] j p s = tt
set-IsSeen past (f ∷ fs) zero p s = ground (arith, eqb_refl p, IsSeen-cons past fs p)
set-IsSeen past (f ∷ fs) (suc j) p s = ground (arith, set-IsSeen past fs j p)

pub set_full-IsPacked :
    (fs : List ℤ) (j : ℕ) (p : ℤ)
    → is_negative p ≡ false
    → no_empty fs ≡ true
    → IsPacked fs
    → IsPacked (set fs j p)
set_full-IsPacked [] j p h f k = tt
set_full-IsPacked (f ∷ fs) zero p h e k = ground arith
set_full-IsPacked (f ∷ fs) (suc j) p h e k = ground (arith, set_full-IsPacked fs j p)

-- With every frame in use and the page in none, the first loop runs past the last frame.
pub probe-full :
    (fs : List ℤ) (p : ℤ) → contains fs p ≡ false → no_empty fs ≡ true → probe p fs ≡ full
unfolding probe next
probe-full [] p h e = refl
probe-full (f ∷ fs) p h e = ground (arith, probe-full fs p)

pub IsSeen-All :
    (past fs : List ℤ) → IsSeen past fs → no_empty fs ≡ true → All (λ f. contains past f ≡ true) fs
IsSeen-All past [] s e = tt
IsSeen-All past (f ∷ fs) s e = (ground arith, IsSeen-All past fs s.1 (ground arith))
