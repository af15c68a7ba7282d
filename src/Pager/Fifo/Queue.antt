-- ===== src/Pager/Fifo/Queue.antt =====
-- FIFO replacement as a queue of pages, oldest first, and Assignment_5/simulator.c as a
-- representation of it: the pages from `victim` on, and then those before it.
use ssu_operating_system.Base.{
  ℕ, zero, suc, ◌+◌, ◌<◌, ◌≤◌, ◌≡◌, refl, Bool, true, false, ◌||◌, inl, inr, Option, none, some,
  List, [], ◌∷◌, ◌++◌, arith, ltb, ◌==◌, if◌then◌else◌, length, ◌>>=◌, Bool-cases, set, length-set,
  ◌∙◌, take, drop, length-append, length-take, length-drop, map, sym, ap, ap₂, replicate, subst,
}
use mathlib.Core.List.{append-nil}
use ssu_operating_system.Base.Int.{ℤ, is_negative, negsuc}
use ssu_operating_system.Pager.{
  Memory, Probe, hit, vacant, full, probe, evict, settle, wrap_victim, fifo_step, Row, run, fifo,
  simulate, step_of, blank,
}
use ssu_operating_system.Pager.Frames.{contains, no_empty, used, Found, probe-Found}
use ssu_operating_system.Pager.Invariant.{
  IsValid, evict_lem, replaced, replaced-IsServed, hit-IsServed, blank-IsValid, Serves,
}
use ssu_operating_system.Pager.Run.{ArePages}
use ssu_operating_system.Pager.Fifo.{wrap_victim-valid, after, wrap_victim-after, fifo_step-Serves}
use ssu_operating_system.Pager.Fifo.Rotate.{
  used-no_empty, no_empty-drop, no_empty-take, no_empty-set, contains-append, contains-used,
  contains-rotate, rotate_lem,
}

-- A reference to `p`, with room for `n` pages: the queue after it, and whether it was a fault.
queue_step : ℕ → List ℤ → ℤ → List ℤ × Bool
queue_step n q p =
    if contains q p
    then (q, false)
    else if ltb (length q) n
    then (q ++ (p ∷ []), true)
    else (drop 1 q ++ (p ∷ []), true)

pub queue_run : ℕ → List ℤ → List ℤ → List Bool
unfolding queue_step
queue_run n q [] = []
queue_run n q (p ∷ refs) = (queue_step n q p).1 ∷ queue_run n (queue_step n q p).0 refs

abbrev order : Memory → List ℤ
order m = used (drop m.victim m.page_frame) ++ used (take m.victim m.page_frame)

-- The victim has not moved while frames are empty.
abbrev IsTurned : Memory → Type 0
IsTurned m = (no_empty m.page_frame || (m.victim == 0)) ≡ true

contains-order :
    (m : Memory) (p : ℤ) → is_negative p ≡ false → contains (order m) p ≡ contains m.page_frame p
contains-order m p h =
    contains-append (used (drop m.victim m.page_frame)) (used (take m.victim m.page_frame)) p
    ∙ (ap₂ ◌||◌ (contains-used (drop m.victim m.page_frame) p h)
          (contains-used (take m.victim m.page_frame) p h)
        ∙ contains-rotate m.victim m.page_frame p)

-- With every frame in use the queue is the frames from the victim round.
order-rotate :
    (m : Memory)
    → no_empty m.page_frame ≡ true
    → order m ≡ drop m.victim m.page_frame ++ take m.victim m.page_frame
order-rotate m h = rw (
  used-no_empty (drop m.victim m.page_frame) (no_empty-drop m.victim m.page_frame h),
  used-no_empty (take m.victim m.page_frame) (no_empty-take m.victim m.page_frame h),
)

length-order : (m : Memory) → no_empty m.page_frame ≡ true → length (order m) ≡ length m.page_frame
length-order m h = rw (order-rotate m h) (
    omega (
      arith,
      length-append (drop m.victim m.page_frame) (take m.victim m.page_frame),
      length-drop m.victim m.page_frame,
      length-take m.victim m.page_frame,
    ))

order-zero : (m : Memory) → m.victim ≡ 0 → order m ≡ used m.page_frame
order-zero m e =
    subst (λ k. used (drop k m.page_frame) ++ used (take k m.page_frame) ≡ used m.page_frame)
      (sym e) (append-nil (used m.page_frame))

queue_hit : (n : ℕ) (q : List ℤ) (p : ℤ) → contains q p ≡ true → queue_step n q p ≡ (q, false)
unfolding queue_step
queue_hit n q p c = rw c

queue_room :
    (n : ℕ) (q : List ℤ) (p : ℤ)
    → contains q p ≡ false
    → length q < n
    → queue_step n q p ≡ (q ++ (p ∷ []), true)
unfolding queue_step
queue_room n q p c h = let less : ltb (length q) n ≡ true = ground arith in rw (c, less)

queue_full :
    (n : ℕ) (q : List ℤ) (p : ℤ)
    → contains q p ≡ false
    → n ≤ length q
    → queue_step n q p ≡ (drop 1 q ++ (p ∷ []), true)
unfolding queue_step
queue_full n q p c h = let more : ltb (length q) n ≡ false = ground arith in rw (c, more)

some_empty : (fs : List ℤ) → length (used fs) < length fs → no_empty fs ≡ false
some_empty fs h = elim (Bool-cases (no_empty fs)) [
  | inl e ↦ absurd (omega (arith, ap length (used-no_empty fs e)))
  | inr e ↦ e
]

module _ {n : ℕ} {past : List ℤ} (p : ℤ) (m : Memory) (v : IsValid n past m)
    (turned : IsTurned m) where
  -- What the reference does to the queue.
  abbrev Refines : Option Memory → Type 0
  Refines none = ⊥
  Refines (some m') = (queue_step n (order m) p ≡ (order m', m'.replace)) × IsTurned m'

  abbrev evict_oldest : Memory
  evict_oldest = record (replaced p m v m.victim) { victim = after n m.victim }

  miss-Refines :
      contains m.page_frame p ≡ false
      → is_negative p ≡ false
      → no_empty m.page_frame ≡ true
      → Refines (some evict_oldest)
  miss-Refines c h e =
      let kept : no_empty (set m.page_frame m.victim p) ≡ true =
        no_empty-set m.page_frame m.victim p h e in
      (
        queue_full n (order m) p (contains-order m p h ∙ c)
              (omega (arith, length-order m e, v.size))
            ∙ ap (λ q. (q, true))
                (ap (λ q. drop 1 q ++ (p ∷ [])) (order-rotate m e)
                  ∙ (sym (
                        rw v.size at
                          (rotate_lem m.page_frame m.victim p (omega (arith, v.size, v.hand))))
                      ∙ sym (order-rotate evict_oldest kept))),
        rw kept,
      )

  vacant-Refines :
      (j : ℕ)
      → is_negative p ≡ false
      → Found p m.page_frame (vacant j)
      → Refines (some (replaced p m v j))
  vacant-Refines j h (lt, c, packed, added, room) =
      let first : m.victim ≡ 0 = ground (arith, some_empty m.page_frame room) in
      (
        queue_room n (order m) p (contains-order m p h ∙ c)
              (rw (order-zero m first) (omega (arith, v.size)))
            ∙ ap (λ q. (q, true))
                (ap (λ q. q ++ (p ∷ [])) (order-zero m first)
                  ∙ (sym added ∙ sym (order-zero (replaced p m v j) first))),
        ground arith,
      )

  step-Refines :
      (r : Probe)
      → is_negative p ≡ false
      → Found p m.page_frame r
      → Refines (do
        m' ← settle m p (do e ← evict m m.victim p; some (record e { victim = e.victim + 1 })) r
        some (wrap_victim m'))
  unfolding settle
  step-Refines (hit j) h f =
      rw (wrap_victim-valid (record m { replace = false }) (hit-IsServed p m v f.2).valid)
        (queue_hit n (order m) p (contains-order m p h ∙ f.2), turned)
  step-Refines (vacant j) h f =
      rw
        (
          evict_lem p m v j (omega (arith, v.size)),
          wrap_victim-valid (replaced p m v j)
              (replaced-IsServed p m v j (omega (arith, v.size)) f.1 f.2).valid,
        )
        (vacant-Refines j h f)
  step-Refines full h f =
      rw
        (
          evict_lem p m v m.victim v.hand,
          wrap_victim-after n (replaced p m v m.victim) m.victim
              (length-set m.page_frame m.victim p ∙ v.size),
        )
        (miss-Refines f.0 h f.1)

  -- A reference under FIFO does to the frames, read from `victim` round, what it does to a queue of
  -- at most `n` pages, and is a fault for both or for neither.
  fifo_step-Refines :
      (future : List ℤ) → is_negative p ≡ false → Refines (fifo_step m past p future)
  unfolding fifo_step
  fifo_step-Refines future h =
      step-Refines (probe p m.page_frame) h (probe-Found p m.page_frame h v.packed)

-- The marks of the rows are the faults of the queue.
abbrev pub Agrees : ℕ → List ℤ → List ℤ → Option (List Row × Memory) → Type 0
Agrees n q refs none = ⊥
Agrees n q refs (some out) = map (λ r. r.fault) out.0 ≡ queue_run n q refs

cons-Agrees :
    (n : ℕ) (q : List ℤ) (p : ℤ) (refs : List ℤ) (t : ℕ) (m' : Memory)
    (out : Option (List Row × Memory))
    → queue_step n q p ≡ (order m', m'.replace)
    → Agrees n (order m') refs out
    → Agrees n q (p ∷ refs) (
        out >>= λ rest.
        some (record { time = t; frames = m'.page_frame; fault = m'.replace } ∷ rest.0, rest.1))
unfolding queue_run
cons-Agrees n q p refs t m' none e h = h
cons-Agrees n q p refs t m' (some out) e h = rw e (ap (λ r. m'.replace ∷ r) h)

step-Agrees :
    {n : ℕ} {past : List ℤ} (p : ℤ) (m : Memory) (v : IsValid n past m) (turned : IsTurned m)
    (refs : List ℤ) (t : ℕ) (rest : Memory → Option (List Row × Memory)) (r : Option Memory)
    → Serves n past p m r
    → Refines p m v turned r
    → ((m' : Memory) → IsValid n (p ∷ past) m' → IsTurned m' → Agrees n (order m') refs (rest m'))
    → Agrees n (order m) (p ∷ refs) (
        r >>= λ m'. rest m' >>= λ out.
        some (record { time = t; frames = m'.page_frame; fault = m'.replace } ∷ out.0, out.1))
step-Agrees p m v turned refs t rest none s q k = s
step-Agrees {n} p m v turned refs t rest (some m') s q k =
    cons-Agrees n (order m) p refs t m' (rest m') q.0 (k m' s.valid q.1)

simulate-Agrees :
    (n : ℕ) (past refs : List ℤ) (m : Memory)
    → ArePages refs
    → IsValid n past m
    → IsTurned m
    → Agrees n (order m) refs (simulate fifo_step past refs m)
unfolding simulate queue_run
simulate-Agrees n past [] m k v turned = refl
simulate-Agrees n past (p ∷ refs) m k v turned =
    step-Agrees p m v turned refs (length past + 1) (simulate fifo_step (p ∷ past) refs)
      (fifo_step m past p refs) (fifo_step-Serves p refs m v k.0)
      (fifo_step-Refines p m v turned refs k.0)
      (λ m' v' turned'. simulate-Agrees n (p ∷ past) refs m' k.1 v' turned')

used-empty : (n k : ℕ) → used (drop k (replicate n (negsuc 0))) ≡ []
used-empty zero zero = refl
used-empty zero (suc k) = refl
used-empty (suc n) zero = used-empty n zero
used-empty (suc n) (suc k) = used-empty n k

-- With a positive number of frames, the marks `F` of a FIFO run, in order, are the faults of a queue
-- of at most that many pages that starts empty: a page not in it is added at the back, after the
-- front is dropped if the queue is full.
pub run_fifo-queue_run :
    (n : ℕ) (refs : List ℤ) → 0 < n → ArePages refs → Agrees n [] refs (run fifo n refs)
unfolding run step_of blank
run_fifo-queue_run n refs h k =
    subst (λ q. Agrees n q refs (simulate fifo_step [] refs (blank n)))
      (order-zero (blank n) refl ∙ used-empty n 0)
      (simulate-Agrees n [] refs (blank n) k (blank-IsValid n h) turned)
  where
    turned : IsTurned (blank n)
    turned = ground arith
