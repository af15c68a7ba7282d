-- ===== src/Pager/Chance/Bits.antt =====
-- The array `reference_bit` of Second-Chance in Assignment_5/simulator.c holds bits throughout.
use ssu_operating_system.Base.{
  ℕ, zero, suc, ◌≤◌, ◌≡◌, inl, inr, Option, none, some, List, [], ◌∷◌, ◌++◌, arith, ◌==◌,
  Bool-cases, Option-cases, set, take, drop, subst, sym, ap, ◌∙◌, ◌≢◌, some_eq,
}
use ssu_operating_system.Base.Int.{ℤ}
use ssu_operating_system.Pager.{
  Memory, Probe, hit, vacant, full, probe, store, evict, wrap_victim, sweep, claim, chance_below,
  chance_from, mark, chance_step,
}
use ssu_operating_system.Pager.Chance.Clock.{AreBits, AreBits-take, AreBits-drop}

abbrev HasBits : Option Memory → Type 0
HasBits none = Unit
HasBits (some m) = AreBits m.reference_bit

AreBits-append : (xs ys : List ℕ) → AreBits xs → AreBits ys → AreBits (xs ++ ys)
AreBits-append [] ys h k = k
AreBits-append (x ∷ xs) ys (b, h) k = (b, AreBits-append xs ys h k)

AreBits-set : (xs : List ℕ) (i b : ℕ) → b ≤ 1 → AreBits xs → AreBits (set xs i b)
AreBits-set [] i b l h = tt
AreBits-set (x ∷ xs) zero b l (c, h) = (l, h)
AreBits-set (x ∷ xs) (suc i) b l (c, h) = (c, AreBits-set xs i b l h)

sweep-AreBits : (bs : List ℕ) (j : ℕ) → AreBits bs → AreBits (sweep bs j).0
unfolding sweep
sweep-AreBits [] j h = tt
sweep-AreBits (b ∷ bs) j (c, h) = elim (Bool-cases (b == 0)) [
  | inl stops ↦ rw stops (c, h)
  | inr passes ↦ rw passes (ground (arith, c), sweep-AreBits bs (suc j) h)
]

evict-keeps :
    (m e : Memory) (j : ℕ) (p : ℤ) → evict m j p ≡ some e → e.reference_bit ≡ m.reference_bit
unfolding evict store
evict-keeps m e j p h = ground (arith, h)

claim-HasBits :
    (m : Memory) (bits : List ℕ) (j : ℕ) (p : ℤ) → AreBits bits → HasBits (claim m bits j p)
unfolding claim
claim-HasBits m bits j p h = elim (Option-cases (evict m j p)) [
  | inl bad ↦ rw bad tt
  | inr (e, good) ↦ rw good h
]

chance_below-HasBits :
    (m : Memory) (low : List ℕ × Option ℕ) (high : List ℕ) (p : ℤ)
    → AreBits low.0
    → AreBits high
    → HasBits (chance_below m low high p)
unfolding chance_below
chance_below-HasBits m (low, some j) high p h k =
    claim-HasBits m (low ++ high) j p (AreBits-append low high h k)
chance_below-HasBits m (low, none) high p h k =
    claim-HasBits m (low ++ high) m.victim p (AreBits-append low high h k)

chance_from-HasBits :
    (m : Memory) (high : List ℕ × Option ℕ) (p : ℤ)
    → AreBits m.reference_bit
    → AreBits high.0
    → HasBits (chance_from m high p)
unfolding chance_from
chance_from-HasBits m (high, some j) p b h =
    claim-HasBits m (take m.victim m.reference_bit ++ high) j p (
      AreBits-append (take m.victim m.reference_bit) high (AreBits-take m.victim m.reference_bit b)
        h)
chance_from-HasBits m (high, none) p b h =
    chance_below-HasBits m (sweep (take m.victim m.reference_bit) 0) high p
      (sweep-AreBits (take m.victim m.reference_bit) 0 (AreBits-take m.victim m.reference_bit b)) h

mark-HasBits :
    (m : Memory) (p : ℤ) (miss : Option Memory) (r : Probe)
    → AreBits m.reference_bit
    → HasBits miss
    → HasBits (mark m p miss r)
unfolding mark
mark-HasBits m p miss (hit j) b h = AreBits-set m.reference_bit j 1 (omega arith) b
mark-HasBits m p miss (vacant j) b h = elim (Option-cases (evict m j p)) [
  | inl bad ↦ rw bad tt
  | inr (e, good) ↦ rw good (
      subst (λ bits. AreBits (set bits j 0)) (sym (evict-keeps m e j p good))
        (AreBits-set m.reference_bit j 0 (omega arith) b))
]
mark-HasBits m p miss full b h = h

wrap_victim-bits : (m : Memory) → (wrap_victim m).reference_bit ≡ m.reference_bit
unfolding wrap_victim
wrap_victim-bits m = ground arith

-- A reference under Second-Chance leaves nothing but 0 and 1 in `reference_bit`, if nothing else was
-- there, as in the state in which a run starts.
chance_step-AreBits :
    (m m' : Memory) (past : List ℤ) (p : ℤ) (future : List ℤ)
    → AreBits m.reference_bit
    → chance_step m past p future ≡ some m'
    → AreBits m'.reference_bit
unfolding chance_step
chance_step-AreBits m m' past p future b e =
    let from = chance_from m (sweep (drop m.victim m.reference_bit) m.victim) p in
    let marked = mark m p from (probe p m.page_frame) in
    elim (Option-cases marked) [
      | inl bad ↦ absurd (none-some (rw bad at e))
      | inr (k, good) ↦
          subst AreBits
            (sym (wrap_victim-bits k) ∙ ap (λ x. x.reference_bit) (some_eq (rw good at e)))
            (subst HasBits good (
              mark-HasBits m p from (probe p m.page_frame) b (
                chance_from-HasBits m (sweep (drop m.victim m.reference_bit) m.victim) p b (
                  sweep-AreBits (drop m.victim m.reference_bit) m.victim
                    (AreBits-drop m.victim m.reference_bit b)))))
    ]
  where
    none-some : {x : Memory} → none ≢ some x
    none-some q = cc
