-- ===== src/Pager/Chance.antt =====
-- The Second-Chance branch of Assignment_5/simulator.c: it stays in range, and is the clock.
pub mod Clock
pub mod Bits
use ssu_operating_system.Base.{
  ℕ, zero, suc, ◌+◌, ◌-◌, ◌<◌, ◌≤◌, ◌≡◌, refl, Bool, true, false, ◌⊎◌, inl, inr, Option, none, some,
  List, [], ◌∷◌, ◌++◌, arith, ltb, leb, ◌==◌, if◌then◌else◌, length, get_elem?, ◌>>=◌, Bool-cases,
  Option-cases, All, set, get_elem?-lt, subst, length-set, ◌∙◌, take, drop, length-append,
  length-take, length-drop,
}
use ssu_operating_system.Base.Int.{ℤ, is_negative, eqb}
use ssu_operating_system.Pager.{
  Memory, Probe, hit, vacant, full, probe, evict, mark, wrap_victim, sweep, claim, chance_below,
  chance_from, chance_step,
}
use ssu_operating_system.Pager.Frames.{
  contains, no_empty, Found, probe-Found, set_full-IsPacked, IsPacked,
}
use ssu_operating_system.Pager.Invariant.{
  IsValid, IsServed, Serves, hit-IsServed, evict-Serves, evict_lem, replaced, replaced-IsServed,
}
use ssu_operating_system.Pager.Fifo.{
  wrap_victim-valid, Serves-wrap_victim, IsServed-victim, after, after-lt, wrap_victim-after,
}

-- A loop over the bits keeps their number, and stops at one of them.
pub length-sweep : (bs : List ℕ) (j : ℕ) → length (sweep bs j).0 ≡ length bs
unfolding sweep
length-sweep [] j = refl
length-sweep (b ∷ bs) j = ground (arith, length-sweep bs (suc j))

sweep-lt : (bs : List ℕ) (j k : ℕ) → (sweep bs j).1 ≡ some k → k < j + length bs
unfolding sweep
sweep-lt [] j k h = cc
sweep-lt (b ∷ bs) j k h = ground (arith, sweep-lt bs (suc j) k)

-- The bits may be any, in the right number.
IsServed-bits :
    {n : ℕ} {past : List ℤ} {p : ℤ} {m m' : Memory} (bits : List ℕ)
    → IsServed n past p m m'
    → length bits ≡ n
    → IsServed n past p m (record m' { reference_bit = bits })
IsServed-bits bits s h = record {
  valid = record {
    size = s.valid.size;
    bits = h;
    hand = s.valid.hand;
    packed = s.valid.packed;
    distinct = s.valid.distinct;
    seen = s.valid.seen;
  };
  resident = s.resident;
  flagged = s.flagged;
  counted = s.counted;
}

module _ {n : ℕ} {past : List ℤ} (p : ℤ) (m : Memory) (v : IsValid n past m) where
  -- A claim of a frame in range, followed by the reset of `victim`.
  claim-Serves :
      (bits : List ℕ) (j : ℕ)
      → length bits ≡ n
      → j < n
      → contains m.page_frame p ≡ false
      → IsPacked (set m.page_frame j p)
      → Serves n past p m (claim m bits j p >>= λ m'. some (wrap_victim m'))
  unfolding claim
  claim-Serves bits j l h c k = rw (evict_lem p m v j h) (
      rw
        (wrap_victim-after n (record (replaced p m v j) { reference_bit = bits }) j
          (length-set m.page_frame j p ∙ v.size))
        (IsServed-victim (after n j) (IsServed-bits bits (replaced-IsServed p m v j h c k) l)
          (after-lt n j h)))

  module _ (c : contains m.page_frame p ≡ false)
      (k : (j : ℕ) → IsPacked (set m.page_frame j p)) where
    below-Serves :
        (low : List ℕ × Option ℕ) (high : List ℕ)
        → length low.0 + length high ≡ n
        → ((j : ℕ) → low.1 ≡ some j → j < n)
        → Serves n past p m (chance_below m low high p >>= λ m'. some (wrap_victim m'))
    unfolding chance_below
    below-Serves (low, some j) high l h =
        claim-Serves (low ++ high) j (length-append low high ∙ l) (h j refl) c (k j)
    below-Serves (low, none) high l h =
        claim-Serves (low ++ high) m.victim (length-append low high ∙ l) v.hand c (k m.victim)

    from-Serves :
        (high : List ℕ × Option ℕ)
        → length high.0 ≡ n - m.victim
        → ((j : ℕ) → high.1 ≡ some j → j < n)
        → Serves n past p m (chance_from m high p >>= λ m'. some (wrap_victim m'))
    unfolding chance_from
    from-Serves (high, some j) l h =
        claim-Serves (take m.victim m.reference_bit ++ high) j
          (omega (
            arith,
            v.bits,
            v.hand,
            length-append (take m.victim m.reference_bit) high,
            length-take m.victim m.reference_bit,
          ))
          (h j refl) c (k j)
    from-Serves (high, none) l h =
        below-Serves (sweep (take m.victim m.reference_bit) 0) high
          (omega (
            arith,
            v.bits,
            v.hand,
            length-sweep (take m.victim m.reference_bit) 0,
            length-take m.victim m.reference_bit,
          ))
          (λ j e. omega (
            arith,
            v.bits,
            v.hand,
            sweep-lt (take m.victim m.reference_bit) 0 j e,
            length-take m.victim m.reference_bit,
          ))

  mark-Found :
      (r : Probe) (miss : Option Memory)
      → Found p m.page_frame r
      → (contains m.page_frame p ≡ false
          → no_empty m.page_frame ≡ true
          → Serves n past p m (miss >>= λ m'. some (wrap_victim m')))
      → Serves n past p m (mark m p miss r >>= λ m'. some (wrap_victim m'))
  unfolding mark
  mark-Found (hit j) miss f k =
      Serves-wrap_victim n past p m
        (some (record m { reference_bit = set m.reference_bit j 1; replace = false }))
        (IsServed-bits (set m.reference_bit j 1) (hit-IsServed p m v f.2)
          (length-set m.reference_bit j 1 ∙ v.bits))
  mark-Found (vacant j) miss f k = rw (evict_lem p m v j (omega (arith, v.size))) (
      Serves-wrap_victim n past p m
        (some (record (replaced p m v j) { reference_bit = set m.reference_bit j 0 }))
        (IsServed-bits (set m.reference_bit j 0)
          (replaced-IsServed p m v j (omega (arith, v.size)) f.1 f.2)
          (length-set m.reference_bit j 0 ∙ v.bits)))
  mark-Found full miss f k = k f.0 f.1

  -- Second-Chance serves every reference.
  pub chance_step-Serves :
      (future : List ℤ) → is_negative p ≡ false → Serves n past p m (chance_step m past p future)
  unfolding chance_step
  chance_step-Serves future h =
      mark-Found (probe p m.page_frame) _ (probe-Found p m.page_frame h v.packed) (λ c used.
        from-Serves c (λ j. set_full-IsPacked m.page_frame j p h used v.packed)
          (sweep (drop m.victim m.reference_bit) m.victim)
          (omega (
            arith,
            v.bits,
            length-sweep (drop m.victim m.reference_bit) m.victim,
            length-drop m.victim m.reference_bit,
          ))
          (λ j e. omega (
            arith,
            v.bits,
            v.hand,
            sweep-lt (drop m.victim m.reference_bit) m.victim j e,
            length-drop m.victim m.reference_bit,
          )))
