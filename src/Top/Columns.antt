-- ===== src/Top/Columns.antt =====
-- Which columns PrintTOP of Assignment_2/mytop.c shows, and where each starts. The arrays
-- `columnWidth` and `startX` are functions of the index.
pub mod Placed
pub mod Command
use ssu_operating_system.Base.{
  ℕ, zero, suc, ◌+◌, ◌-◌, ◌<◌, ◌≤◌, ◌≡◌, refl, false, ◌⊎◌, inl, inr, Option, none, some,
  if◌then◌else◌, leb, ltb, ◌==◌, arith, Bool-cases, subst, sym, ap, some_eq, ==_iff, ◌∙◌,
}
use ssu_operating_system.Base.Int.{ℤ, pos, negsuc}

-- `startX[i] = x`.
abbrev pub put : (ℕ → ℕ) → ℕ → ℕ → ℕ → ℕ
put start_x i x j = if i == j then x else start_x j

-- The loop from index `k + 1` on, with so many indices left: `startX`, and the index of the
-- first column that starts beyond the screen, if the loop breaks.
unfoldable pub place : ℕ → (ℕ → ℕ) → ℕ → ℕ → (ℕ → ℕ) → (ℕ → ℕ) × Option ℕ
place cols column_width zero k start_x = (start_x, none)
place cols column_width (suc n) k start_x =
    let x = column_width k + 2 + start_x k in
    let rest = place cols column_width n (suc k) (put start_x (suc k) x) in
    if leb cols x then (put start_x (suc k) x, some (suc k)) else rest

abbrev column_cnt : ℕ
column_cnt = 12

abbrev command_idx : ℕ
command_idx = 11

pub record Layout : Type 0 where
  pub start_x : ℕ → ℕ
  pub start_col : ℕ
  pub end_col : ℕ
  pub max_cmd : ℤ

-- `a - b` of two sizes as an `int`.
abbrev pub minus : ℕ → ℕ → ℤ
minus a b = if ltb a b then negsuc (b - a - 1) else pos (a - b)

-- `int startX[COLUMN_CNT] = {2};`
abbrev first_x : ℕ → ℕ
first_x j = if j == 0 then 2 else 0

-- The columns shown when the loop has ended.
unfoldable pub shown : ℕ → ℕ → (ℕ → ℕ) × Option ℕ → Layout
shown cols col (start_x, some i) = record {
  start_x = start_x;
  start_col = col;
  end_col = i;
  max_cmd = negsuc 0;
}
shown cols col (start_x, none) = record {
  start_x = start_x;
  start_col = col;
  end_col = column_cnt;
  max_cmd = minus cols (start_x command_idx);
}

unfoldable pub lay_out : ℕ → ℕ → (ℕ → ℕ) → Layout
unfolding place shown
lay_out cols col column_width =
    if leb (column_cnt - 1) col
    then record {
      start_x = first_x;
      start_col = command_idx;
      end_col = column_cnt;
      max_cmd = pos cols;
    }
    else shown cols col (place cols column_width (column_cnt - (col + 1)) col first_x)
