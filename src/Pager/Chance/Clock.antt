-- ===== src/Pager/Chance/Clock.antt =====
-- Second-Chance as a clock: one hand that goes round the frames, clears each bit that it passes and
-- stops at the first that is 0. The two loops of Assignment_5/simulator.c find what the clock finds.
use ssu_operating_system.Base.{
  ℕ, zero, suc, ◌+◌, ◌%◌, ◌<◌, ◌≤◌, ◌≡◌, refl, Option, none, some, List, [], ◌∷◌, ◌++◌, arith, ◌==◌,
  if◌then◌else◌, length, get_or, ◌>>=◌, All, set, ◌∙◌, take, drop, length-append, length-take,
  length-drop, sym, ap, take-append-drop,
}
use Prim.Native.Nat.add
use native.Mathlib.Nat.{add-zero, zero-add, mod-eq_of_lt, mod_self}
use mathlib.Core.List.{append-nil, append_assoc}
use ssu_operating_system.Base.Int.{ℤ}
use ssu_operating_system.Pager.{Memory, sweep, claim, chance_below, chance_from}
use ssu_operating_system.Pager.Invariant.{IsValid}
use ssu_operating_system.Pager.Chance.{length-sweep}

-- The hand at `h`, over `n` bits; the bits and the hand where it stops, `none` if not in `fuel`.
pub clock : ℕ → ℕ → List ℕ → ℕ → Option (List ℕ × ℕ)
clock n zero bits h = none
clock n (suc fuel) bits h =
    let rest = clock n fuel (set bits h 0) ((h + 1) % n) in
    if get_or bits h 0 == 0 then some (bits, h) else rest

abbrev pub AreBits : List ℕ → Type 0
AreBits = All (λ b. b ≤ 1)

get_or-append : (xs : List ℕ) (y : ℕ) (ys : List ℕ) → get_or (xs ++ (y ∷ ys)) (length xs) 0 ≡ y
get_or-append [] y ys = refl
get_or-append (x ∷ xs) y ys = get_or-append xs y ys

set-append :
    (xs : List ℕ) (y z : ℕ) (ys : List ℕ) → set (xs ++ (y ∷ ys)) (length xs) z ≡ xs ++ (z ∷ ys)
set-append [] y z ys = refl
set-append (x ∷ xs) y z ys = ap (λ r. x ∷ r) (set-append xs y z ys)

-- Where the loop over `bs`, which starts at `h` and is followed by the bits `post`, leaves the
-- clock: at the frame where the loop stops, or past the last one.
abbrev After : ℕ → ℕ → List ℕ → List ℕ → ℕ → List ℕ × Option ℕ → List ℕ → ℕ → Type 0
After n fuel pre bs h (bs', some j) post g =
    clock n (length bs + fuel) (pre ++ (bs ++ post)) h ≡ some (pre ++ (bs' ++ post), j)
After n fuel pre bs h (bs', none) post g =
    clock n (length bs + fuel) (pre ++ (bs ++ post)) h ≡ clock n fuel (pre ++ (bs' ++ post)) g

-- One bit that is 1 is cleared, and the hand goes on.
clock-one :
    (n fuel : ℕ) (pre post : List ℕ) (h : ℕ)
    → h ≡ length pre
    → clock n (suc fuel) (pre ++ (1 ∷ post)) h ≡ clock n fuel (pre ++ (0 ∷ post)) ((h + 1) % n)
unfolding clock
clock-one n fuel pre post h e = rw (e, get_or-append pre 1 post, set-append pre 1 0 post)

clock-zero :
    (n fuel : ℕ) (pre post : List ℕ) (h : ℕ)
    → h ≡ length pre
    → clock n (suc fuel) (pre ++ (0 ∷ post)) h ≡ some (pre ++ (0 ∷ post), h)
unfolding clock
clock-zero n fuel pre post h e = rw (e, get_or-append pre 0 post)

-- One bit in front of a loop.
After-cons :
    (n fuel : ℕ) (pre bs : List ℕ) (h : ℕ) (r : List ℕ × Option ℕ) (post : List ℕ) (g : ℕ)
    → h ≡ length pre
    → After n fuel (pre ++ (0 ∷ [])) bs ((h + 1) % n) r post g
    → After n fuel pre (1 ∷ bs) h (0 ∷ r.0, r.1) post g
After-cons n fuel pre bs h (bs', some j) post g e a =
    rw (add.suc, clock-one n (length bs + fuel) pre (bs ++ post) h e)
      (rw (append_assoc pre (0 ∷ []) (bs ++ post), append_assoc pre (0 ∷ []) (bs' ++ post)) at a)
After-cons n fuel pre bs h (bs', none) post g e a =
    rw (add.suc, clock-one n (length bs + fuel) pre (bs ++ post) h e)
      (rw (append_assoc pre (0 ∷ []) (bs ++ post), append_assoc pre (0 ∷ []) (bs' ++ post)) at a)

sweep-After :
    (n fuel : ℕ) (pre bs post : List ℕ) (h j : ℕ)
    → n ≡ length pre + length bs + length post
    → h ≡ length pre % n
    → j ≡ length pre
    → AreBits bs
    → After n fuel pre bs h (sweep bs j) post ((length pre + length bs) % n)
unfolding sweep
sweep-After n fuel pre [] post h j l e i b =
    let same : (length pre + 0) % n ≡ h = rw add-zero (sym e) in rw same (rw zero-add)
sweep-After n fuel pre (zero ∷ bs) post h j l e i b =
    let at : h ≡ length pre = e ∙ mod-eq_of_lt (omega arith) in
    let here : h ≡ j = at ∙ sym i in
    rw (add.suc, clock-zero n (length bs + fuel) pre (bs ++ post) h at, here)
sweep-After n fuel pre (suc zero ∷ bs) post h j l e i b =
    let at : h ≡ length pre = e ∙ mod-eq_of_lt (omega arith) in
    let longer : length (pre ++ (0 ∷ [])) ≡ length pre + 1 = length-append pre (0 ∷ []) in
    let rest =
      sweep-After n fuel (pre ++ (0 ∷ [])) bs post ((h + 1) % n) (suc j) (omega (arith, longer))
        (rw (longer, at)) (omega (arith, longer)) b.1 in
    let round : (length (pre ++ (0 ∷ [])) + length bs) % n ≡ (length pre + suc (length bs)) % n =
      ap (λ k. k % n) (omega (arith, longer)) in
    After-cons n fuel pre bs h (sweep bs (suc j)) post _ at (rw round at rest)
sweep-After n fuel pre (suc (suc b) ∷ bs) post h j l e i k = absurd (omega arith)

-- A loop that finds no bit 0 leaves none but 0.
sweep-none :
    (b : ℕ) (bs : List ℕ) (j : ℕ)
    → AreBits (b ∷ bs)
    → (sweep (b ∷ bs) j).1 ≡ none
    → (rest : List ℕ) × ((sweep (b ∷ bs) j).0 ≡ 0 ∷ rest)
unfolding sweep
sweep-none zero bs j k e = cc
sweep-none (suc zero) bs j k e = ((sweep bs (suc j)).0, refl)
sweep-none (suc (suc b)) bs j k e = absurd (omega arith)

high_cleared :
    (bs : List ℕ) (j : ℕ)
    → 0 < length bs
    → AreBits bs
    → (sweep bs j).1 ≡ none
    → (rest : List ℕ) × ((sweep bs j).0 ≡ 0 ∷ rest)
high_cleared [] j h k e = elim h [ ]
high_cleared (b ∷ bs) j h k e = sweep-none b bs j k e

pub AreBits-take : (v : ℕ) (bs : List ℕ) → AreBits bs → AreBits (take v bs)
AreBits-take zero bs k = tt
AreBits-take (suc v) [] k = tt
AreBits-take (suc v) (b ∷ bs) k = (k.0, AreBits-take v bs k.1)

pub AreBits-drop : (v : ℕ) (bs : List ℕ) → AreBits bs → AreBits (drop v bs)
AreBits-drop zero bs k = k
AreBits-drop (suc v) [] k = tt
AreBits-drop (suc v) (b ∷ bs) k = AreBits-drop v bs k.1

module _ (n : ℕ) (m : Memory) (p : ℤ) (low high : List ℕ) (size : length low + length high ≡ n)
    (hand : m.victim ≡ length low) (some_high : 0 < length high) (bits_low : AreBits low)
    (bits_high : AreBits high) (whole : take m.victim m.reference_bit ≡ low) where
  abbrev claims : Option (List ℕ × ℕ) → Option Memory
  claims r = r >>= λ s. claim m s.0 s.1 p

  -- Where both loops find nothing, the clock is back at `victim`, and finds its bit cleared.
  below-After :
      (r : List ℕ × Option ℕ) (rest : List ℕ)
      → length r.0 ≡ length low
      → After n 1 [] low 0 r (0 ∷ rest) m.victim
      → chance_below m r (0 ∷ rest) p ≡ claims (clock n (length low + 1) (low ++ (0 ∷ rest)) 0)
  unfolding chance_below
  below-After (low', some j) rest l a = rw a
  below-After (low', none) rest l a = rw (a, clock-zero n 0 low' rest m.victim (hand ∙ sym l))

  below-clock :
      (rest : List ℕ)
      → length low + suc (length rest) ≡ n
      → chance_below m (sweep low 0) (0 ∷ rest) p
        ≡ claims (clock n (length low + 1) (low ++ (0 ∷ rest)) 0)
  below-clock rest l =
      let round : (0 + length low) % n ≡ m.victim =
        rw zero-add (mod-eq_of_lt (omega arith) ∙ sym hand) in
      below-After (sweep low 0) rest (length-sweep low 0) (
        rw round at (
          sweep-After n 1 [] low (0 ∷ rest) 0 0 (omega arith) (sym (mod-eq_of_lt (omega arith)))
            refl bits_low))

  from-After :
      (r : List ℕ × Option ℕ)
      → length r.0 ≡ length high
      → (r.1 ≡ none → (rest : List ℕ) × (r.0 ≡ 0 ∷ rest))
      → After n (length low + 1) low high m.victim r [] 0
      → chance_from m r p
        ≡ claims (clock n (length high + (length low + 1)) (low ++ (high ++ [])) m.victim)
  unfolding chance_from
  from-After (high', some j) l z a = rw (a, whole, append-nil)
  from-After (high', none) l z a =
      let (rest, e) = z refl in
      rw (a, whole, append-nil, e) (below-clock rest (omega (arith, ap length e)))

  -- The two loops and the replacement after them, with the bits in two parts.
  from-clock :
      chance_from m (sweep high m.victim) p ≡ claims (clock n (suc n) (low ++ high) m.victim)
  from-clock =
      let round : (length low + length high) % n ≡ 0 = rw size (mod_self n) in
      let steps : length high + (length low + 1) ≡ suc n = omega arith in
      let all =
        from-After (sweep high m.victim) (length-sweep high m.victim)
          (high_cleared high m.victim some_high bits_high)
          (rw round at (
            sweep-After n (length low + 1) low high [] m.victim m.victim (omega arith)
              (hand ∙ sym (mod-eq_of_lt (omega arith))) hand bits_high)) in
      rw (steps, append-nil) at all

-- Second-Chance replaces the page at which a clock stops, whose hand starts at `victim` and goes
-- round once and one frame further at most, and leaves the bits as the clock does.
pub chance_from-clock :
    {n : ℕ} {past : List ℤ} (m : Memory) (p : ℤ)
    → IsValid n past m
    → AreBits m.reference_bit
    → chance_from m (sweep (drop m.victim m.reference_bit) m.victim) p
      ≡ (clock n (suc n) m.reference_bit m.victim >>= λ s. claim m s.0 s.1 p)
chance_from-clock {n} m p v k = rw (take-append-drop m.victim m.reference_bit) at (
    from-clock n m p (take m.victim m.reference_bit) (drop m.victim m.reference_bit)
      (omega (
        arith,
        v.bits,
        v.hand,
        length-take m.victim m.reference_bit,
        length-drop m.victim m.reference_bit,
      ))
      (omega (arith, v.bits, v.hand, length-take m.victim m.reference_bit))
      (omega (arith, v.bits, v.hand, length-drop m.victim m.reference_bit))
      (AreBits-take m.victim m.reference_bit k) (AreBits-drop m.victim m.reference_bit k) refl)
