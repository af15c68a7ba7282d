-- ===== src/Top/Screen/Narrow.antt =====
-- When PrintTOP of Assignment_2/mytop.c writes in front of a command.
use ssu_operating_system.Base.{
  ℕ, zero, suc, ◌+◌, ◌-◌, ◌<◌, ◌≤◌, ◌≡◌, ◌≢◌, refl, sym, ◌∙◌, ap, inl, inr, ◌↔◌, true, false,
  Option, none, some, List, [], ◌∷◌, ◌++◌, ◌>>=◌, ltb, ◌==◌, length, drop, take, arith,
}
use ssu_operating_system.Base.Int.{pos, negsuc}
use ssu_operating_system.Top.Columns.{Layout, minus, lay_out}
use ssu_operating_system.Top.Columns.Placed.{lay_out-fits}
use ssu_operating_system.Top.Columns.Command.{lay_out-HasCommand}
use ssu_operating_system.Top.Record.{TopProc}
use ssu_operating_system.Top.Screen.{
  column_width, cell, table_columns, draw_cells, draw_titles, visible_cmd, draw_cmd, draw_rows,
  print_columns,
}

-- A command is shown, from its first byte on.
draw_cmd-few :
    (l : Layout) (col y : ℕ) (p : TopProc)
    → col < 11
    → draw_cmd l col y p ≡ (
        visible_cmd l.max_cmd 0 p.cmd
        >>= (λ t. some (record { y = y; x = pos (l.start_x 11); text = t } ∷ [])))
unfolding draw_cmd
draw_cmd-few l col y p few =
    let not_last : (col == 11) ≡ false = ground (arith, few) in
    let left : ltb col 11 ≡ true = ground (arith, few) in rw (not_last, left) refl

draw_cmd-narrow :
    (l : Layout) (col y : ℕ) (p : TopProc)
    → col < 11
    → l.max_cmd ≡ negsuc 0
    → draw_cmd l col y p ≡ none
unfolding visible_cmd
draw_cmd-narrow l col y p few e = draw_cmd-few l col y p few ∙ simp (e, visible_cmd) refl

abbrev Drawn {ℓ} : {A : Type ℓ} → Option A → Type ℓ
Drawn {A = A} o = (a : A) × (o ≡ some a)

draw_cmd-wide :
    (l : Layout) (col y n : ℕ) (p : TopProc)
    → col < 11
    → l.max_cmd ≡ pos n
    → n < 1024
    → Drawn (draw_cmd l col y p)
unfolding visible_cmd
draw_cmd-wide l col y n p few e h =
    let fits : ltb n 1024 ≡ true = ground (arith, h) in
    (
      record { y = y; x = pos (l.start_x 11); text = take n p.cmd } ∷ [],
      draw_cmd-few l col y p few ∙ simp (e, visible_cmd, fits) refl,
    )

draw_rows-wide :
    (l : Layout) (width : ℕ → ℕ) (col y n : ℕ) (rows : List TopProc)
    → col < 11
    → l.max_cmd ≡ pos n
    → n < 1024
    → Drawn (draw_rows l width col y rows)
unfolding draw_rows
draw_rows-wide l width col y n [] few e h = ([], refl)
draw_rows-wide l width col y n (p ∷ rows) few e h =
    let (cmd, first) = draw_cmd-wide l col y n p few e h in
    let (below, rest) = draw_rows-wide l width col (y + 1) n rows few e h in
    (draw_cells l width y (λ c. cell c p) table_columns ++ (cmd ++ below), rw (first, rest) refl)

draw_rows-narrow :
    (l : Layout) (width : ℕ → ℕ) (col y : ℕ) (rows : List TopProc)
    → col < 11
    → l.max_cmd ≡ negsuc 0
    → 0 < length rows
    → draw_rows l width col y rows ≡ none
unfolding draw_rows
draw_rows-narrow l width col y [] few e h = absurd (omega (arith, h))
draw_rows-narrow l width col y (p ∷ rows) few e h = rw (draw_cmd-narrow l col y p few e) refl

length-drop : (n : ℕ) (xs : List TopProc) → n < length xs → 0 < length (drop n xs)
length-drop zero xs h = h
length-drop (suc n) [] h = absurd (omega (arith, h))
length-drop (suc n) (x ∷ xs) h = length-drop n xs (omega (arith, h))

minus-pos : (a b : ℕ) → b ≤ a → minus a b ≡ pos (a - b)
minus-pos a b h = let inside : ltb a b ≡ false = ground (arith, h) in rw inside refl

some-none : {A : Type 0} {a : A} → some a ≢ none
some-none e = cc

-- With at most 10 steps to the right, on a screen of 3 to 1023 columns where some process is left to
-- show, PrintTOP writes in front of the command of the first exactly if not all columns are shown.
pub print_columns-eq-none :
    (cols col row : ℕ) (procs sorted : List TopProc)
    → 2 < cols
    → cols < 1024
    → col < 11
    → row < length sorted
    → (print_columns cols col row procs sorted ≡ none)
      ↔ ((lay_out cols col (column_width procs)).end_col < 12)
unfolding print_columns
print_columns-eq-none cols col row procs sorted wide small few left =
    let w = column_width procs in
    let l = lay_out cols col w in
    elim (lay_out-HasCommand cols col w wide few) [
      | inl (all, max) ↦
          let fits : l.start_x 11 ≤ cols = omega (
            arith,
            (lay_out-fits cols col w 11 wide few (omega (arith, few)) (omega (arith, all))).0,
          ) in
          let (rows, drawn) =
            draw_rows-wide l w col 7 (cols - l.start_x 11) (drop row sorted) few
              (max ∙ minus-pos cols (l.start_x 11) fits) (omega (arith, small)) in
          (
            λ e.
                absurd
                  (some-none (sym (ap (λ o. o >>= (λ r. some (draw_titles l w ++ r))) drawn) ∙ e)),
            λ h. absurd (omega (arith, all, h)),
          )
      | inr (cut, max) ↦
          let failed =
            draw_rows-narrow l w col 7 (drop row sorted) few max (length-drop row sorted left) in
          (λ e. cut, λ h. ap (λ o. o >>= (λ r. some (draw_titles l w ++ r))) failed)
    ]
