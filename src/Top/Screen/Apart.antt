-- ===== src/Top/Screen/Apart.antt =====
-- The columns of PrintTOP in Assignment_2/mytop.c do not run into each other.
use ssu_operating_system.Base.{
  ℕ, zero, suc, ◌+◌, ◌-◌, ◌*◌, ◌<◌, ◌≤◌, ◌≡◌, refl, sym, subst, ◌⊎◌, inl, inr, Bool, true, false,
  ◌&&◌, Option, some, some_eq, bind-some, Bool-cases, List, [], ◌∷◌, ◌++◌, ◌>>=◌, if◌then◌else◌,
  ltb, leb, ◌==◌, length, drop, get_elem?, All, arith,
}
use ssu_operating_system.Base.Int.{pos}
use ssu_operating_system.Base.Text.{Text}
use ssu_operating_system.Top.Columns.{Layout, lay_out}
use ssu_operating_system.Top.Columns.Placed.{lay_out-fits, lay_out-ends}
use ssu_operating_system.Top.Record.{TopProc}
use ssu_operating_system.Top.Screen.Widths.{
  longest-ge, longest-fits, column_width-idx, IsWithin, draw_x-IsWithin,
}
use ssu_operating_system.Top.Screen.{
  Column, idx, title, cell, table_columns, column_width, Draw, draw_x, draw_cells, draw_titles,
  visible_cmd, draw_cmd, draw_rows, print_columns,
}

-- A draw is in a column that is shown, and ends in front of the next; or it starts where COMMAND does.
abbrev pub IsApart : Layout → Draw → Type 0
IsApart l d =
    ((c : Column) × (l.start_col ≤ idx c)
      × (idx c < l.end_col)
      × IsWithin (l.start_x (idx c)) (l.start_x (suc (idx c))) d.x d.text)
    ⊎ (d.x ≡ pos (l.start_x 11))

-- A process of the list.
abbrev pub IsListed : List TopProc → TopProc → Type 0
IsListed procs p = (i : ℕ) × (get_elem? procs i ≡ some p)

module _ {A : Type 0} (P : A → Type 0) where
  All-append : (xs ys : List A) → All P xs → All P ys → All P (xs ++ ys)
  All-append [] ys h k = k
  All-append (x ∷ xs) ys (p, h) k = (p, All-append xs ys h k)

  All-drop : (n : ℕ) (xs : List A) → All P xs → All P (drop n xs)
  All-drop zero xs h = h
  All-drop (suc n) [] h = h
  All-drop (suc n) (x ∷ xs) (p, h) = All-drop n xs h

-- The columns shown stand two places apart.
abbrev IsSpaced : Layout → (ℕ → ℕ) → Type 0
IsSpaced l width =
    (c : Column)
    → l.start_col ≤ idx c
    → idx c < l.end_col
    → idx c < 11
    → l.start_x (suc (idx c)) ≡ width (idx c) + 2 + l.start_x (idx c)

lay_out-IsSpaced :
    (cols col : ℕ) (width : ℕ → ℕ) → 2 < cols → col < 11 → IsSpaced (lay_out cols col width) width
lay_out-IsSpaced cols col width wide few c l e h =
    let (first, more, rest) = lay_out-ends cols col width wide few in
    elim ((lay_out-fits cols col width (idx c) wide few (subst (λ x. x ≤ idx c) first l) e).1) [
      | inl last ↦ absurd (omega (arith, last, h))
      | inr next ↦ next
    ]

draw_cells-IsApart :
    (l : Layout) (width : ℕ → ℕ) (y : ℕ) (text : Column → Text) (columns : List Column)
    → IsSpaced l width
    → ((c : Column) → length (text c) ≤ width (idx c))
    → All (λ c. idx c < 11) columns
    → All (IsApart l) (draw_cells l width y text columns)
unfolding draw_cells
draw_cells-IsApart l width y text [] v h t = tt
draw_cells-IsApart l width y text (c ∷ columns) v h (few, t) =
    let rest = draw_cells-IsApart l width y text columns v h t in
    elim (Bool-cases (leb l.start_col (idx c) && ltb (idx c) l.end_col)) [
      | inl visible ↦ rw visible (
        inl (
          c,
          ground (arith, visible),
          ground (arith, visible),
          subst
              (λ next.
                IsWithin (l.start_x (idx c)) next
                  (draw_x c (l.start_x (idx c)) (width (idx c)) (text c)) (text c))
              (sym (v c (ground (arith, visible)) (ground (arith, visible)) few))
              (draw_x-IsWithin c (l.start_x (idx c)) (width (idx c)) (text c) few (h c)),
        ),
        rest,
      )
      | inr hidden ↦ rw hidden rest
    ]

table_columns-few : All (λ c. idx c < 11) table_columns
table_columns-few = (
  omega arith,
  (
    omega arith,
    (
      omega arith,
      (
        omega arith,
        (
          omega arith,
          (
            omega arith,
            (omega arith, (omega arith, (omega arith, (omega arith, (omega arith, tt))))),
          ),
        ),
      ),
    ),
  ),
)

draw_titles-IsApart :
    (l : Layout) (procs : List TopProc)
    → IsSpaced l (column_width procs)
    → All (IsApart l) (draw_titles l (column_width procs))
unfolding draw_titles
draw_titles-IsApart l procs v =
    All-append (IsApart l) (draw_cells l (column_width procs) 6 title table_columns) _
      (draw_cells-IsApart l (column_width procs) 6 title table_columns v
        (λ c. rw (column_width-idx procs c) (longest-ge (cell c) (length (title c)) procs))
        table_columns-few)
      (inr refl, tt)

draw_cmd-IsApart :
    (l : Layout) (col y : ℕ) (p : TopProc) (draws : List Draw)
    → draw_cmd l col y p ≡ some draws
    → All (IsApart l) draws
unfolding draw_cmd
draw_cmd-IsApart l col y p draws e = tested (col == 11 && ltb (length p.command) ((col - 11) * 8)) e
  where
    cut : Option Text
    cut = visible_cmd l.max_cmd (if ltb col 11 then 0 else (col - 11) * 8) p.cmd

    tested :
        (b : Bool)
        → (if b
            then some []
            else (cut >>= (λ t. some (record { y = y; x = pos (l.start_x 11); text = t } ∷ []))))
          ≡ some draws
        → All (IsApart l) draws
    tested true q = subst (All (IsApart l)) (some_eq q) tt
    tested false q =
        let (t, visible, made) = bind-some cut _ q in
        subst (All (IsApart l)) (some_eq made) (inr refl, tt)

draw_rows-IsApart :
    (l : Layout) (col y : ℕ) (procs rows : List TopProc) (draws : List Draw)
    → IsSpaced l (column_width procs)
    → All (IsListed procs) rows
    → draw_rows l (column_width procs) col y rows ≡ some draws
    → All (IsApart l) draws
unfolding draw_rows
draw_rows-IsApart l col y procs [] draws v h e = subst (All (IsApart l)) (some_eq e) tt
draw_rows-IsApart l col y procs (p ∷ rows) draws v ((i, listed), h) e =
    let (cmd, first, more) = bind-some (draw_cmd l col y p) _ e in
    let (below, rest, made) =
      bind-some (draw_rows l (column_width procs) col (y + 1) rows) _ more in
    subst (All (IsApart l)) (some_eq made) (
      All-append (IsApart l) (draw_cells l (column_width procs) y (λ c. cell c p) table_columns)
        (cmd ++ below)
        (draw_cells-IsApart l (column_width procs) y (λ c. cell c p) table_columns v
          (λ c.
            rw (column_width-idx procs c)
              (longest-fits (cell c) (length (title c)) procs i p listed))
          table_columns-few)
        (All-append (IsApart l) cmd below (draw_cmd-IsApart l col y p cmd first)
          (draw_rows-IsApart l col (y + 1) procs rows below v h rest)))

-- On a screen of more than 2 columns, with at most 10 steps to the right, all that PrintTOP prints below
-- the summary is either in a column that is shown, with a blank in front of the next column, or at the
-- start of COMMAND. The processes sorted are those of the list.
pub print_columns-IsApart :
    (cols col row : ℕ) (procs sorted : List TopProc) (draws : List Draw)
    → 2 < cols
    → col < 11
    → All (IsListed procs) sorted
    → print_columns cols col row procs sorted ≡ some draws
    → All (IsApart (lay_out cols col (column_width procs))) draws
unfolding print_columns
print_columns-IsApart cols col row procs sorted draws wide few h e =
    let l = lay_out cols col (column_width procs) in
    let v = lay_out-IsSpaced cols col (column_width procs) wide few in
    let (rows, drawn, made) =
      bind-some (draw_rows l (column_width procs) col 7 (drop row sorted)) _ e in
    subst (All (IsApart l)) (some_eq made) (
      All-append (IsApart l) (draw_titles l (column_width procs)) rows
        (draw_titles-IsApart l procs v)
        (draw_rows-IsApart l col 7 procs (drop row sorted) rows v
          (All-drop (IsListed procs) row sorted h) drawn))
