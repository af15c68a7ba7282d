-- ===== src/Pager/Opt.antt =====
-- The OPT branch of Assignment_5/simulator.c: which frame its loops choose.
use ssu_operating_system.Base.{
  ℕ, suc, ◌+◌, ◌<◌, ◌≤◌, ◌≡◌, refl, true, false, ◌⊎◌, inl, inr, none, some, List, [], ◌∷◌, arith,
  ltb, length, get_elem?, Bool-cases, Option-cases, All, set, get_elem?-lt, subst,
}
use ssu_operating_system.Base.Int.{ℤ, is_negative}
use ssu_operating_system.Pager.{next_use, further, opt_victim, opt_step, settle, Memory}
use ssu_operating_system.Pager.Frames.{contains, no_empty, probe-full, set_full-IsPacked}
use ssu_operating_system.Pager.Invariant.{IsValid, Serves, settle-Serves, evict-Serves, evict_lem}

-- `f` is used again, at `k` or before.
abbrev UsedBy : List ℤ → ℕ → ℕ → ℤ → Type 0
UsedBy future i k f = (l : ℕ) × (next_use f future (suc i) ≡ some l) × (l ≤ k)

-- Frame `w` holds a page that is not used again, or is used again at `k` and no page of a frame is
-- used again later than that or never.
abbrev pub Furthest : List ℤ → ℕ → List ℤ → ℕ → Type 0
Furthest future i fs w =
    (f : ℤ) × (get_elem? fs w ≡ some f)
    × ((next_use f future (suc i) ≡ none)
        ⊎ ((k : ℕ) × (next_use f future (suc i) ≡ some k) × All (UsedBy future i k) fs))

-- The rest of the loop from frame `j` on, with `location` and `victim` set.
abbrev Ends : List ℤ → ℕ → List ℤ → ℕ → ℕ → ℕ → ℕ → Type 0
Ends future i fs j location victim w =
    ((x : ℕ) × (f : ℤ) × (w ≡ j + x)
      × (get_elem? fs x ≡ some f)
      × (next_use f future (suc i) ≡ none))
    ⊎ ((k : ℕ) × (location ≤ k)
        × All (UsedBy future i k) fs
        × (((w ≡ victim) × (k ≡ location))
            ⊎ ((x : ℕ) × (f : ℤ) × (w ≡ j + x)
                × (get_elem? fs x ≡ some f)
                × (next_use f future (suc i) ≡ some k))))

Ends-cons :
    (future : List ℤ) (i : ℕ) (fs : List ℤ) (f : ℤ) (j location victim l w : ℕ)
    → next_use f future (suc i) ≡ some l
    → l ≤ location
    → Ends future i fs (suc j) location victim w
    → Ends future i (f ∷ fs) j location victim w
Ends-cons future i fs f j location victim l w e le (inl (x, g, same, get, never)) =
    inl (suc x, g, omega arith, get, never)
Ends-cons future i fs f j location victim l w e le (inr (k, bound, all, inl q)) =
    inr (k, bound, ((l, e, omega arith), all), inl q)
Ends-cons future i fs f j location victim l w e le (inr (k, bound, all, inr (x, g, same, get, u))) =
    inr (k, bound, ((l, e, omega arith), all), inr (suc x, g, omega arith, get, u))

-- The loop moves its choice to frame `j`.
Ends-move :
    (future : List ℤ) (i : ℕ) (fs : List ℤ) (f : ℤ) (j location victim l w : ℕ)
    → next_use f future (suc i) ≡ some l
    → location ≤ l
    → Ends future i fs (suc j) l j w
    → Ends future i (f ∷ fs) j location victim w
Ends-move future i fs f j location victim l w e le (inl (x, g, same, get, never)) =
    inl (suc x, g, omega arith, get, never)
Ends-move future i fs f j location victim l w e le (inr (k, bound, all, inl q)) =
    inr (k, omega arith, ((l, e, bound), all), inr (0, f, omega (arith, q.0), refl, rw q.1 e))
Ends-move future i fs f j location victim l w e le (inr (k, bound, all, inr (x, g, same, get, u))) =
    inr (k, omega arith, ((l, e, bound), all), inr (suc x, g, omega arith, get, u))

opt_from :
    (future : List ℤ) (i : ℕ) (fs : List ℤ) (j location victim : ℕ)
    → (w : ℕ) × (opt_victim future i fs j (some (location, victim)) ≡ some w)
      × Ends future i fs j location victim w
unfolding opt_victim
opt_from future i [] j location victim =
    (victim, refl, inr (location, omega arith, tt, inl (refl, refl)))
opt_from future i (f ∷ fs) j location victim = elim (Option-cases (next_use f future (suc i))) [
  | inl never ↦ (j, rw (never, opt_victim), inl (0, f, omega arith, refl, never))
  | inr (l, e) ↦ elim (Bool-cases (ltb location l)) [
    | inl less ↦
        let (w, r, ends) = opt_from future i fs (suc j) l j in
        (
          w,
          rw (e, opt_victim, further, less) r,
          Ends-move future i fs f j location victim l w e (ground arith) ends,
        )
    | inr more ↦
        let (w, r, ends) = opt_from future i fs (suc j) location victim in
        (
          w,
          rw (e, opt_victim, further, more) r,
          Ends-cons future i fs f j location victim l w e (ground arith) ends,
        )
  ]
]

Ends-Furthest :
    (future : List ℤ) (i : ℕ) (f : ℤ) (fs : List ℤ) (l w : ℕ)
    → next_use f future (suc i) ≡ some l
    → Ends future i fs 1 l 0 w
    → Furthest future i (f ∷ fs) w
Ends-Furthest future i f fs l w e (inl (x, g, same, get, never)) = (g, at, inl never)
  where
    at : get_elem? (f ∷ fs) w ≡ some g
    at = subst (λ y. get_elem? (f ∷ fs) y ≡ some g) {x = suc x} (omega arith) get
Ends-Furthest future i f fs l w e (inr (k, bound, all, inl q)) =
    (f, rw q.0, inr (k, rw q.1 e, ((l, e, bound), all)))
Ends-Furthest future i f fs l w e (inr (k, bound, all, inr (x, g, same, get, u))) =
    (g, at, inr (k, u, ((l, e, bound), all)))
  where
    at : get_elem? (f ∷ fs) w ≡ some g
    at = subst (λ y. get_elem? (f ∷ fs) y ≡ some g) {x = suc x} (omega arith) get

opt_victim-Furthest :
    (future : List ℤ) (i : ℕ) (fs : List ℤ)
    → 0 < length fs
    → (w : ℕ) × (opt_victim future i fs 0 none ≡ some w) × Furthest future i fs w
unfolding opt_victim
opt_victim-Furthest future i [] h = elim h [ ]
opt_victim-Furthest future i (f ∷ fs) h = elim (Option-cases (next_use f future (suc i))) [
  | inl never ↦ (0, rw (never, opt_victim), (f, refl, inl never))
  | inr (l, e) ↦
      let (w, r, ends) = opt_from future i fs 1 l 0 in
      (w, rw (e, opt_victim, further) r, Ends-Furthest future i f fs l w e ends)
]

module _ {n : ℕ} {past : List ℤ} (p : ℤ) (future : List ℤ) (m : Memory) (v : IsValid n past m) where
  -- On a miss with all frames in use, OPT writes the page over one that is not used again or, if
  -- every page of a frame is, over one whose next use is the last of all; nothing else changes but
  -- the count and the flag.
  pub opt_step-Furthest :
      contains m.page_frame p ≡ false
      → no_empty m.page_frame ≡ true
      → (w : ℕ) × (opt_step m past p future
          ≡ some (record m {
            page_frame = set m.page_frame w p;
            page_fault = m.page_fault + 1;
            replace = true;
          }))
        × Furthest future (length past) m.page_frame w
  unfolding opt_step settle
  opt_step-Furthest c full =
      let (w, e, at) =
        opt_victim-Furthest future (length past) m.page_frame (omega (arith, v.size, v.hand)) in
      (
        w,
        rw (probe-full m.page_frame p c full, e)
            (evict_lem p m v w (omega (arith, v.size, get_elem?-lt m.page_frame w at.1))),
        at,
      )

  -- OPT serves every reference.
  pub opt_step-Serves : is_negative p ≡ false → Serves n past p m (opt_step m past p future)
  unfolding opt_step
  opt_step-Serves h = settle-Serves p m v _ h (λ c full.
      let (w, e, at) =
        opt_victim-Furthest future (length past) m.page_frame (omega (arith, v.size, v.hand)) in
      rw e (
        evict-Serves p m v w (omega (arith, v.size, get_elem?-lt m.page_frame w at.1)) c
          (set_full-IsPacked m.page_frame w p h full v.packed)))
