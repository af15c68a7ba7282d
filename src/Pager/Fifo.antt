-- ===== src/Pager/Fifo.antt =====
-- The FIFO branch of Assignment_5/simulator.c against a queue of pages.
pub mod Rotate
pub mod Queue
use ssu_operating_system.Base.{
  ℕ, zero, suc, ◌+◌, ◌<◌, ◌≤◌, ◌≡◌, refl, Bool, true, false, ◌⊎◌, inl, inr, Option, none, some,
  List, [], ◌∷◌, arith, ltb, leb, ◌==◌, if◌then◌else◌, length, get_elem?, ◌>>=◌, Bool-cases,
  Option-cases, All, set, get_elem?-lt, subst, length-set, ◌∙◌,
}
use ssu_operating_system.Base.Int.{ℤ, is_negative, eqb}
use ssu_operating_system.Pager.{
  Memory, Probe, hit, vacant, full, probe, evict, settle, wrap_victim, fifo_step,
}
use ssu_operating_system.Pager.Frames.{contains, no_empty, Found, probe-Found, set_full-IsPacked}
use ssu_operating_system.Pager.Invariant.{
  IsValid, IsServed, Serves, hit-IsServed, evict-Serves, evict_lem, replaced, replaced-IsServed,
}

-- A valid memory has its victim below `frame_size`, so the reset of `victim` does nothing.
pub wrap_victim-valid : {n : ℕ} {past : List ℤ} (m : Memory) → IsValid n past m → wrap_victim m ≡ m
unfolding wrap_victim
wrap_victim-valid m v = ground (arith, v.size, v.hand)

pub Serves-wrap_victim :
    (n : ℕ) (past : List ℤ) (p : ℤ) (m : Memory) (r : Option Memory)
    → Serves n past p m r
    → Serves n past p m (r >>= λ m'. some (wrap_victim m'))
Serves-wrap_victim n past p m none s = s
Serves-wrap_victim n past p m (some m') s = rw (wrap_victim-valid m' s.valid) s

-- The hand may be put anywhere in range.
pub IsServed-victim :
    {n : ℕ} {past : List ℤ} {p : ℤ} {m m' : Memory} (v : ℕ)
    → IsServed n past p m m'
    → v < n
    → IsServed n past p m (record m' { victim = v })
IsServed-victim v s h = record {
  valid = record {
    size = s.valid.size;
    bits = s.valid.bits;
    hand = h;
    packed = s.valid.packed;
    distinct = s.valid.distinct;
    seen = s.valid.seen;
  };
  resident = s.resident;
  flagged = s.flagged;
  counted = s.counted;
}

-- The victim after `v`, round the end.
pub after : ℕ → ℕ → ℕ
after n v = if v + 1 == n then 0 else v + 1

pub after-lt : (n v : ℕ) → v < n → after n v < n
unfolding after
after-lt n v h = ground arith

pub wrap_victim-after :
    (n : ℕ) (m : Memory) (v : ℕ)
    → length m.page_frame ≡ n
    → wrap_victim (record m { victim = v + 1 }) ≡ record m { victim = after n v }
unfolding wrap_victim after
wrap_victim-after n m v h = ground arith

module _ {n : ℕ} {past : List ℤ} (p : ℤ) (future : List ℤ) (m : Memory) (v : IsValid n past m) where
  miss-Serves :
      contains m.page_frame p ≡ false
      → is_negative p ≡ false
      → no_empty m.page_frame ≡ true
      → Serves n past p m (do
        m' ← (do e ← evict m m.victim p; some (record e { victim = e.victim + 1 }))
        some (wrap_victim m'))
  miss-Serves c h used = rw (evict_lem p m v m.victim v.hand) (
      rw
        (wrap_victim-after n (replaced p m v m.victim) m.victim
          (length-set m.page_frame m.victim p ∙ v.size))
        (IsServed-victim (after n m.victim)
          (replaced-IsServed p m v m.victim v.hand c
            (set_full-IsPacked m.page_frame m.victim p h used v.packed))
          (after-lt n m.victim v.hand)))

  step-Found :
      (r : Probe)
      → is_negative p ≡ false
      → Found p m.page_frame r
      → Serves n past p m (do
        m' ← settle m p (do e ← evict m m.victim p; some (record e { victim = e.victim + 1 })) r
        some (wrap_victim m'))
  unfolding settle
  step-Found (hit j) h f =
      Serves-wrap_victim n past p m (some (record m { replace = false })) (hit-IsServed p m v f.2)
  step-Found (vacant j) h f =
      Serves-wrap_victim n past p m (evict m j p)
        (evict-Serves p m v j (omega (arith, v.size)) f.1 f.2)
  step-Found full h f = miss-Serves f.0 h f.1

  -- FIFO serves every reference.
  pub fifo_step-Serves : is_negative p ≡ false → Serves n past p m (fifo_step m past p future)
  unfolding fifo_step
  fifo_step-Serves h = step-Found (probe p m.page_frame) h (probe-Found p m.page_frame h v.packed)
