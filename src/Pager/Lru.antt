-- ===== src/Pager/Lru.antt =====
-- The LRU branch of Assignment_5/simulator.c: which frame its loops choose.
use ssu_operating_system.Base.{
  ℕ, suc, ◌+◌, ◌<◌, ◌≤◌, ◌≡◌, refl, true, false, ◌⊎◌, inl, inr, none, some, List, [], ◌∷◌, arith,
  ltb, length, get_elem?, Bool-cases, All, set, get_elem?-lt, subst,
}
use ssu_operating_system.Base.Int.{ℤ, is_negative, eqb}
use ssu_operating_system.Pager.{Memory, last_use, nearer, lru_victim, lru_step, settle}
use ssu_operating_system.Pager.Frames.{contains, no_empty, eqb_symm, probe-full, IsSeen-All}
use ssu_operating_system.Pager.Invariant.{IsValid, Serves, settle-Serves, evict-Serves, evict_lem}
use ssu_operating_system.Pager.Frames.{set_full-IsPacked}

-- The last use of `f` is at `k` or later.
abbrev pub UsedFrom : List ℤ → ℕ → ℤ → Type 0
UsedFrom past k f = (l : ℕ) × (last_use f past ≡ some l) × (k ≤ l)

last_use-lt :
    (past : List ℤ) (f : ℤ)
    → contains past f ≡ true
    → (k : ℕ) × (last_use f past ≡ some k) × (k < length past)
unfolding last_use
last_use-lt [] f h = cc
last_use-lt (r ∷ past) f h = elim (Bool-cases (eqb f r)) [
  | inl same ↦ (length past, rw same, omega arith)
  | inr other ↦
      let earlier = last_use-lt past f (ground (arith, eqb_symm f r)) in
      (earlier.0, rw other earlier.1, omega (arith, earlier.2))
]

-- Frame `w` of `fs`, which starts at frame `j`, was last used at `k`.
abbrev UsedAt : List ℤ → List ℤ → ℕ → ℕ → ℕ → Type 0
UsedAt past fs j w k =
    (i : ℕ) × (f : ℤ) × (w ≡ j + i) × (get_elem? fs i ≡ some f) × (last_use f past ≡ some k)

-- The rest of the loop, with `location` and `victim` set.
record Chosen (past fs : List ℤ) (j location victim : ℕ) : Type 0 where
  w : ℕ
  k : ℕ
  result : lru_victim past fs j (location, some victim) ≡ some w
  bound : k ≤ location
  least : All (UsedFrom past k) fs
  whence : ((w ≡ victim) × (k ≡ location)) ⊎ UsedAt past fs j w k

UsedAt-cons :
    (past fs : List ℤ) (f : ℤ) (j w k : ℕ) → UsedAt past fs (suc j) w k → UsedAt past (f ∷ fs) j w k
UsedAt-cons past fs f j w k (i, g, e, at, used) = (suc i, g, omega arith, at, used)

lru_from :
    (past fs : List ℤ) (j location victim : ℕ)
    → All (λ f. contains past f ≡ true) fs
    → Chosen past fs j location victim
unfolding lru_victim
lru_from past [] j location victim h = record {
  w = victim;
  k = location;
  result = refl;
  bound = omega arith;
  least = tt;
  whence = inl (refl, refl);
}
lru_from past (f ∷ fs) j location victim (h, hs) =
    let (l, e, lt) = last_use-lt past f h in
    elim (Bool-cases (ltb l location)) [
      | inl less ↦
          let c = lru_from past fs (suc j) l j hs in
          record {
            w = c.w;
            k = c.k;
            result = rw (e, nearer, less) c.result;
            bound = ground (arith, c.bound);
            least = ((l, e, c.bound), c.least);
            whence = inr (elim c.whence [
              | inl q ↦ (0, f, omega (arith, q.0), refl, rw q.1 e)
              | inr u ↦ UsedAt-cons past fs f j c.w c.k u
            ]);
          }
      | inr more ↦
          let c = lru_from past fs (suc j) location victim hs in
          record {
            w = c.w;
            k = c.k;
            result = rw (e, nearer, more) c.result;
            bound = c.bound;
            least = ((l, e, ground (arith, c.bound)), c.least);
            whence = elim c.whence [
              | inl q ↦ inl q
              | inr u ↦ inr (UsedAt-cons past fs f j c.w c.k u)
            ];
          }
    ]

lru_victim-least_cons :
    (past : List ℤ) (f : ℤ) (fs : List ℤ)
    → length past ≤ 99
    → All (λ g. contains past g ≡ true) (f ∷ fs)
    → (w : ℕ) × (k : ℕ) × (lru_victim past (f ∷ fs) 0 (99, none) ≡ some w)
      × UsedAt past (f ∷ fs) 0 w k
      × All (UsedFrom past k) (f ∷ fs)
unfolding lru_victim
lru_victim-least_cons past f fs small (h, hs) =
    let (l, e, lt) = last_use-lt past f h in
    let c = lru_from past fs 1 l 0 hs in
    let less : ltb l 99 ≡ true = ground arith in
    (
      c.w,
      c.k,
      rw (e, nearer, less) c.result,
      elim c.whence [
        | inl q ↦ (0, f, omega (arith, q.0), refl, rw q.1 e)
        | inr u ↦ UsedAt-cons past fs f 0 c.w c.k u
      ],
      ((l, e, c.bound), c.least),
    )

-- Frame `w` holds a page that was last used at `k`.
abbrev pub LastUsed : List ℤ → List ℤ → ℕ → ℕ → Type 0
LastUsed past fs w k = (f : ℤ) × (get_elem? fs w ≡ some f) × (last_use f past ≡ some k)

lru_victim-least :
    (past fs : List ℤ)
    → length past ≤ 99
    → 0 < length fs
    → All (λ g. contains past g ≡ true) fs
    → (w : ℕ) × (k : ℕ) × (lru_victim past fs 0 (99, none) ≡ some w)
      × (w < length fs)
      × LastUsed past fs w k
      × All (UsedFrom past k) fs
lru_victim-least past [] small h u = elim h [ ]
lru_victim-least past (f ∷ fs) small h u =
    let (w, k, e, at, least) = lru_victim-least_cons past f fs small u in
    let (i, g, same, get, last) = at in
    let here : get_elem? (f ∷ fs) w ≡ some g =
      subst (λ x. get_elem? (f ∷ fs) x ≡ some g) (omega arith) get in
    (w, k, e, get_elem?-lt (f ∷ fs) w here, (g, here, last), least)

module _ {n : ℕ} {past : List ℤ} (p : ℤ) (future : List ℤ) (m : Memory) (v : IsValid n past m)
    (small : length past ≤ 99) where
  -- On a miss with all frames in use, LRU writes the page over one that was last used no later than
  -- the page of any frame, and changes nothing else but the count and the flag.
  pub lru_step-least :
      contains m.page_frame p ≡ false
      → no_empty m.page_frame ≡ true
      → (w : ℕ) × (k : ℕ) × (lru_step m past p future
          ≡ some (record m {
            page_frame = set m.page_frame w p;
            page_fault = m.page_fault + 1;
            replace = true;
          }))
        × LastUsed past m.page_frame w k
        × All (UsedFrom past k) m.page_frame
  unfolding lru_step settle
  lru_step-least c full =
      let (w, k, e, lt, at, least) =
        lru_victim-least past m.page_frame small (omega (arith, v.size, v.hand))
          (IsSeen-All past m.page_frame v.seen full) in
      (
        w,
        k,
        rw (probe-full m.page_frame p c full, e) (evict_lem p m v w (omega (arith, v.size))),
        at,
        least,
      )

  -- LRU serves every reference.
  pub lru_step-Serves : is_negative p ≡ false → Serves n past p m (lru_step m past p future)
  unfolding lru_step
  lru_step-Serves h = settle-Serves p m v _ h (λ c full.
      let (w, k, e, lt, at, least) =
        lru_victim-least past m.page_frame small (omega (arith, v.size, v.hand))
          (IsSeen-All past m.page_frame v.seen full) in
      rw e (
        evict-Serves p m v w (omega (arith, v.size)) c
          (set_full-IsPacked m.page_frame w p h full v.packed)))
