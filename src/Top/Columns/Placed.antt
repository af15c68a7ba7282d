-- ===== src/Top/Columns/Placed.antt =====
-- Where the columns that PrintTOP of Assignment_2/mytop.c shows start and end.
use ssu_operating_system.Base.{
  ℕ, zero, suc, ◌+◌, ◌-◌, ◌<◌, ◌≤◌, ◌≡◌, refl, false, ◌⊎◌, inl, inr, Option, none, some, leb, ◌==◌,
  arith, Bool-cases, subst, sym, ap, some_eq, ==_iff, ◌∙◌,
}
use ssu_operating_system.Top.Columns.{put, place, Layout, first_x, shown, lay_out}

abbrev pub end_of : ℕ → Option ℕ → ℕ
end_of last none = last
end_of last (some e) = e

pub record Placed (cols last : ℕ) (width : ℕ → ℕ) (k : ℕ) (xs : ℕ → ℕ) (out : (ℕ → ℕ) × Option ℕ)
    : Type 0 where
  pub kept : (j : ℕ) → j ≤ k → out.0 j ≡ xs j
  pub fits : (j : ℕ) → k ≤ j → j < end_of last out.1 → out.0 j < cols
  pub spaced :
      (j : ℕ) → k ≤ j → j < end_of last out.1 → suc j < last → out.0 (suc j) ≡ width j + 2 + out.0 j
  pub past : k < end_of last out.1
  pub ends : (out.1 ≡ none) ⊎ ((e : ℕ) × (out.1 ≡ some e) × (e < last) × (cols ≤ out.0 e))

put-own : (xs : ℕ → ℕ) (i x : ℕ) → put xs i x i ≡ x
put-own xs i x = ground arith

put-below : (xs : ℕ → ℕ) (k x j : ℕ) → j ≤ k → put xs (suc k) x j ≡ xs j
put-below xs k x j l = ground (arith, l)

same_index : (k j : ℕ) → k ≤ j → j < suc k → k ≡ j
same_index k j l e = omega arith

-- The loop breaks at index `k + 1`.
Placed-break :
    (cols last : ℕ) (width : ℕ → ℕ) (k : ℕ) (xs : ℕ → ℕ)
    → suc k < last
    → xs k < cols
    → cols ≤ width k + 2 + xs k
    → Placed cols last width k xs (put xs (suc k) (width k + 2 + xs k), some (suc k))
Placed-break cols last width k xs more h beyond =
    let x = width k + 2 + xs k in
    record {
      kept = λ j l. put-below xs k x j l;
      fits = λ j l e.
          subst (λ i. put xs (suc k) x i < cols) (same_index k j l e)
            (subst (λ y. y < cols) (sym (put-below xs k x k (omega arith))) h);
      spaced = λ j l e s.
          subst (λ i. put xs (suc k) x (suc i) ≡ width i + 2 + put xs (suc k) x i)
            (same_index k j l e)
            (put-own xs (suc k) x
              ∙ sym (ap (λ y. width k + 2 + y) (put-below xs k x k (omega arith))));
      past = omega arith;
      ends = inr (suc k, refl, more, omega (arith, put-own xs (suc k) x, beyond));
    }

-- The loop goes on behind index `k + 1`.
Placed-next :
    (cols last : ℕ) (width : ℕ → ℕ) (k : ℕ) (xs : ℕ → ℕ) (out : (ℕ → ℕ) × Option ℕ)
    → xs k < cols
    → Placed cols last width (suc k) (put xs (suc k) (width k + 2 + xs k)) out
    → Placed cols last width k xs out
Placed-next cols last width k xs out h v =
    let x = width k + 2 + xs k in
    let at_k : out.0 k ≡ xs k = v.kept k (omega arith) ∙ put-below xs k x k (omega arith) in
    record {
      kept = λ j l. v.kept j (omega (arith, l)) ∙ put-below xs k x j l;
      fits = λ j l e. elim (Bool-cases (k == j)) [
        | inl first ↦
            subst (λ i. out.0 i < cols) ((==_iff k j).0 first) (subst (λ y. y < cols) (sym at_k) h)
        | inr later ↦ v.fits j (ground (arith, l, later)) e
      ];
      spaced = λ j l e s. elim (Bool-cases (k == j)) [
        | inl first ↦
            subst (λ i. out.0 (suc i) ≡ width i + 2 + out.0 i) ((==_iff k j).0 first)
              (v.kept (suc k) (omega arith)
                ∙ put-own xs (suc k) x
                ∙ sym (ap (λ y. width k + 2 + y) at_k))
        | inr later ↦ v.spaced j (ground (arith, l, later)) e s
      ];
      past = omega (arith, v.past);
      ends = v.ends;
    }

place-Placed :
    (cols last : ℕ) (width : ℕ → ℕ) (n k : ℕ) (xs : ℕ → ℕ)
    → last ≡ suc k + n
    → xs k < cols
    → Placed cols last width k xs (place cols width n k xs)
unfolding place
place-Placed cols last width zero k xs q h = record {
  kept = λ j l. refl;
  fits = λ j l e. subst (λ i. xs i < cols) (same_index k j l (omega (arith, q, e))) h;
  spaced = λ j l e s. absurd (omega (arith, q, l, s));
  past = omega (arith, q);
  ends = inl refl;
}
place-Placed cols last width (suc n) k xs q h = elim (Bool-cases (leb cols (width k + 2 + xs k))) [
  | inl beyond ↦
      rw beyond (Placed-break cols last width k xs (omega (arith, q)) h (ground (arith, beyond)))
  | inr inside ↦ rw inside (
      Placed-next cols last width k xs
        (place cols width n (suc k) (put xs (suc k) (width k + 2 + xs k))) h
        (place-Placed cols last width n (suc k) (put xs (suc k) (width k + 2 + xs k))
          (omega (arith, q)) (ground (arith, put-own xs (suc k) (width k + 2 + xs k)))))
]

pub lay_out-shown :
    (cols col : ℕ) (width : ℕ → ℕ)
    → col < 11
    → lay_out cols col width ≡ shown cols col (place cols width (12 - (col + 1)) col first_x)
unfolding lay_out
lay_out-shown cols col width few =
    let right_end : leb 11 col ≡ false = ground (arith, few) in rw right_end

pub lay_out-Placed :
    (cols col : ℕ) (width : ℕ → ℕ)
    → 2 < cols
    → col < 11
    → Placed cols 12 width col first_x (place cols width (12 - (col + 1)) col first_x)
lay_out-Placed cols col width wide few =
    place-Placed cols 12 width (12 - (col + 1)) col first_x (omega (arith, few))
      (ground (arith, wide))

abbrev FitsAt : ℕ → (ℕ → ℕ) → ℕ → Layout → Type 0
FitsAt cols width j l =
    (l.start_x j < cols) × ((j ≡ 11) ⊎ (l.start_x (suc j) ≡ width j + 2 + l.start_x j))

shown-FitsAt :
    (cols col : ℕ) (width : ℕ → ℕ) (out : (ℕ → ℕ) × Option ℕ) (j : ℕ)
    → Placed cols 12 width col first_x out
    → col ≤ j
    → j < (shown cols col out).end_col
    → FitsAt cols width j (shown cols col out)
unfolding shown
shown-FitsAt cols col width (xs, none) j v l e = (
  v.fits j l e,
  elim (Bool-cases (j == 11)) [
    | inl last ↦ inl ((==_iff j 11).0 last)
    | inr more ↦ inr (v.spaced j l e (ground (arith, e, more)))
  ],
)
shown-FitsAt cols col width (xs, some i) j v l e = (
  v.fits j l e,
  elim (Bool-cases (j == 11)) [
    | inl last ↦ inl ((==_iff j 11).0 last)
    | inr more ↦ inr (v.spaced j l e (before_last v.ends e more))
  ],
)
  where
    before_last :
        (some i ≡ none) ⊎ ((e : ℕ) × (some i ≡ some e) × (e < 12) × (cols ≤ xs e))
        → j < i
        → (j == 11) ≡ false
        → suc j < 12
    before_last (inl bad) h m = cc
    before_last (inr (k, same, small, big)) h m = omega (arith, some_eq same, h, small)

-- On a screen of more than 2 columns, with at most 10 steps to the right, each column that PrintTOP
-- shows starts on the screen, and the next one, if there is one, two places behind its end.
pub lay_out-fits :
    (cols col : ℕ) (width : ℕ → ℕ) (j : ℕ)
    → 2 < cols
    → col < 11
    → col ≤ j
    → j < (lay_out cols col width).end_col
    → ((lay_out cols col width).start_x j < cols)
      × ((j ≡ 11)
          ⊎ ((lay_out cols col width).start_x (suc j)
              ≡ width j + 2 + (lay_out cols col width).start_x j))
lay_out-fits cols col width j wide few l e =
    let same = lay_out-shown cols col width few in
    subst (FitsAt cols width j) (sym same) (
      shown-FitsAt cols col width (place cols width (12 - (col + 1)) col first_x) j
        (lay_out-Placed cols col width wide few) l (subst (λ m. j < m.end_col) same e))

abbrev EndsAt : ℕ → ℕ → Layout → Type 0
EndsAt cols col l =
    (l.start_col ≡ col)
    × (col < l.end_col)
    × ((l.end_col ≡ 12) ⊎ ((l.end_col < 12) × (cols ≤ l.start_x l.end_col)))

shown-EndsAt :
    (cols col : ℕ) (width : ℕ → ℕ) (out : (ℕ → ℕ) × Option ℕ)
    → Placed cols 12 width col first_x out
    → EndsAt cols col (shown cols col out)
unfolding shown
shown-EndsAt cols col width (xs, none) v = (refl, v.past, inl refl)
shown-EndsAt cols col width (xs, some i) v = (refl, v.past, inr (beyond v.ends))
  where
    beyond :
        (some i ≡ none) ⊎ ((e : ℕ) × (some i ≡ some e) × (e < 12) × (cols ≤ xs e))
        → (i < 12) × (cols ≤ xs i)
    beyond (inl bad) = cc
    beyond (inr (k, same, small, big)) =
        subst (λ x. (x < 12) × (cols ≤ xs x)) (sym (some_eq same)) (small, big)

-- On a screen of more than 2 columns, with at most 10 steps to the right, PrintTOP shows at least
-- the first column that is not left out, and leaves out columns at the end only if the first of
-- them starts beyond the screen.
pub lay_out-ends :
    (cols col : ℕ) (width : ℕ → ℕ)
    → 2 < cols
    → col < 11
    → ((lay_out cols col width).start_col ≡ col)
      × (col < (lay_out cols col width).end_col)
      × (((lay_out cols col width).end_col ≡ 12)
          ⊎ (((lay_out cols col width).end_col < 12)
              × (cols ≤ (lay_out cols col width).start_x (lay_out cols col width).end_col)))
lay_out-ends cols col width wide few =
    subst (EndsAt cols col) (sym (lay_out-shown cols col width few)) (
      shown-EndsAt cols col width (place cols width (12 - (col + 1)) col first_x)
        (lay_out-Placed cols col width wide few))
