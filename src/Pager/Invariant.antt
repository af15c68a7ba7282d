-- ===== src/Pager/Invariant.antt =====
-- What holds of the arrays of Assignment_5/simulator.c between two references, and what one
-- reference does, whatever the method.
use ssu_operating_system.Base.{
  ℕ, zero, suc, ◌+◌, ◌<◌, ◌≡◌, refl, true, false, not, Option, none, some, List, [], ◌∷◌, arith,
  if◌then◌else◌, length, set, replicate, length-set, length-replicate, ◌∙◌,
}
use ssu_operating_system.Base.Int.{ℤ, is_negative, negsuc}
use ssu_operating_system.Pager.{
  Memory, Probe, hit, vacant, full, probe, store, evict, settle, blank,
}
use ssu_operating_system.Pager.Frames.{
  contains, IsDistinct, IsSeen, IsPacked, no_empty, all_empty, Found, probe-Found,
  contains-set_self, set-IsDistinct, set-IsSeen, IsSeen-cons,
}

-- `n` frames and bits, a victim in range, the frames in use first, with distinct pages from `past`.
pub record IsValid (n : ℕ) (past : List ℤ) (m : Memory) : Type 0 where
  pub size : length m.page_frame ≡ n
  pub bits : length m.reference_bit ≡ n
  pub hand : m.victim < n
  pub packed : IsPacked m.page_frame
  pub distinct : IsDistinct m.page_frame
  pub seen : IsSeen past m.page_frame

-- The reference to `p` is served: it stays inside the arrays, keeps the invariant, leaves the page
-- in a frame, and counts a fault exactly if the page was in none.
pub record IsServed (n : ℕ) (past : List ℤ) (p : ℤ) (m m' : Memory) : Type 0 where
  pub valid : IsValid n (p ∷ past) m'
  pub resident : contains m'.page_frame p ≡ true
  pub flagged : m'.replace ≡ not (contains m.page_frame p)
  pub counted : m'.page_fault ≡ (if m'.replace then 1 else 0) + m.page_fault

abbrev pub Serves : ℕ → List ℤ → ℤ → Memory → Option Memory → Type 0
Serves n past p m none = ⊥
Serves n past p m (some m') = IsServed n past p m m'

pub blank-IsValid : (n : ℕ) → 0 < n → IsValid n [] (blank n)
unfolding blank
blank-IsValid n h = record {
  size = length-replicate n (negsuc 0);
  bits = length-replicate n 0;
  hand = h;
  packed = packed n;
  distinct = distinct n;
  seen = seen n;
}
  where
    empty : (k : ℕ) → all_empty (replicate k (negsuc 0)) ≡ true
    empty zero = refl
    empty (suc k) = empty k

    packed : (k : ℕ) → IsPacked (replicate k (negsuc 0))
    packed zero = tt
    packed (suc k) = (empty k, packed k)

    distinct : (k : ℕ) → IsDistinct (replicate k (negsuc 0))
    distinct zero = tt
    distinct (suc k) = (refl, distinct k)

    seen : (k : ℕ) → IsSeen [] (replicate k (negsuc 0))
    seen zero = tt
    seen (suc k) = (refl, seen k)

module _ {n : ℕ} {past : List ℤ} (p : ℤ) (m : Memory) (v : IsValid n past m) where
  -- A replacement at an index in range is the write, and no access outside.
  pub evict_lem :
      (j : ℕ)
      → j < n
      → evict m j p
        ≡ some (record m {
          page_frame = set m.page_frame j p;
          page_fault = m.page_fault + 1;
          replace = true;
        })
  unfolding evict store
  evict_lem j h = ground (arith, v.size)

  abbrev pub replaced : ℕ → Memory
  replaced j = record m {
    page_frame = set m.page_frame j p;
    page_fault = m.page_fault + 1;
    replace = true;
  }

  pub replaced-IsServed :
      (j : ℕ)
      → j < n
      → contains m.page_frame p ≡ false
      → IsPacked (set m.page_frame j p)
      → IsServed n past p m (replaced j)
  replaced-IsServed j h c k = record {
    valid = record {
      size = length-set m.page_frame j p ∙ v.size;
      bits = v.bits;
      hand = v.hand;
      packed = k;
      distinct = set-IsDistinct m.page_frame j p c v.distinct;
      seen = set-IsSeen past m.page_frame j p v.seen;
    };
    resident = contains-set_self m.page_frame j p (ground (arith, v.size));
    flagged = rw c;
    counted = omega arith;
  }

  pub evict-Serves :
      (j : ℕ)
      → j < n
      → contains m.page_frame p ≡ false
      → IsPacked (set m.page_frame j p)
      → Serves n past p m (evict m j p)
  evict-Serves j h c k = rw (evict_lem j h) (replaced-IsServed j h c k)

  pub hit-IsServed :
      contains m.page_frame p ≡ true → IsServed n past p m (record m { replace = false })
  hit-IsServed c = record {
    valid = record {
      size = v.size;
      bits = v.bits;
      hand = v.hand;
      packed = v.packed;
      distinct = v.distinct;
      seen = IsSeen-cons past m.page_frame p v.seen;
    };
    resident = c;
    flagged = rw c;
    counted = omega arith;
  }

  settle-Found :
      (miss : Option Memory) (r : Probe)
      → Found p m.page_frame r
      → (contains m.page_frame p ≡ false → no_empty m.page_frame ≡ true → Serves n past p m miss)
      → Serves n past p m (settle m p miss r)
  unfolding settle
  settle-Found miss (hit j) f k = hit-IsServed f.2
  settle-Found miss (vacant j) f k = evict-Serves j (omega (arith, v.size)) f.1 f.2
  settle-Found miss full f k = k f.0 f.1

  -- An iteration serves the page if what replaces a page on a miss does.
  pub settle-Serves :
      (miss : Option Memory)
      → is_negative p ≡ false
      → (contains m.page_frame p ≡ false → no_empty m.page_frame ≡ true → Serves n past p m miss)
      → Serves n past p m (settle m p miss (probe p m.page_frame))
  settle-Serves miss h k =
      settle-Found miss (probe p m.page_frame) (probe-Found p m.page_frame h v.packed) k
