-- ===== src/Top/Columns/Command.antt =====
-- `maxCmd` of PrintTOP in Assignment_2/mytop.c, the length of what is shown of a command.
use ssu_operating_system.Base.{
  ℕ, ◌+◌, ◌-◌, ◌<◌, ◌≤◌, ◌≡◌, refl, ◌⊎◌, inl, inr, Option, none, some, subst, sym, some_eq,
}
use ssu_operating_system.Base.Int.{negsuc}
use ssu_operating_system.Top.Columns.{Layout, minus, lay_out, place, shown, first_x}
use ssu_operating_system.Top.Columns.Placed.{lay_out-shown, lay_out-Placed, Placed}

abbrev HasCommand : ℕ → Layout → Type 0
HasCommand cols l =
    ((l.end_col ≡ 12) × (l.max_cmd ≡ minus cols (l.start_x 11)))
    ⊎ ((l.end_col < 12) × (l.max_cmd ≡ negsuc 0))

shown-HasCommand :
    (cols col : ℕ) (width : ℕ → ℕ) (out : (ℕ → ℕ) × Option ℕ)
    → Placed cols 12 width col first_x out
    → HasCommand cols (shown cols col out)
unfolding shown
shown-HasCommand cols col width (xs, none) v = inl (refl, refl)
shown-HasCommand cols col width (xs, some i) v = inr (broken v.ends, refl)
  where
    broken : (some i ≡ none) ⊎ ((e : ℕ) × (some i ≡ some e) × (e < 12) × (cols ≤ xs e)) → i < 12
    broken (inl bad) = cc
    broken (inr (k, same, small, big)) = subst (λ x. x < 12) (sym (some_eq same)) small

-- Either all columns are shown, and a command has the columns left, or `maxCmd` keeps its first value.
pub lay_out-HasCommand :
    (cols col : ℕ) (width : ℕ → ℕ) → 2 < cols → col < 11 → HasCommand cols (lay_out cols col width)
lay_out-HasCommand cols col width wide few =
    subst (HasCommand cols) (sym (lay_out-shown cols col width few)) (
      shown-HasCommand cols col width (place cols width (12 - (col + 1)) col first_x)
        (lay_out-Placed cols col width wide few))
