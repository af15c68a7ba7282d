-- ===== src/Top/Screen/Widths.antt =====
-- The width of a column of PrintTOP in Assignment_2/mytop.c, and where a text stands in it.
use ssu_operating_system.Base.{
  ℕ, zero, suc, ◌+◌, ◌<◌, ◌≤◌, ◌≡◌, refl, subst, false, some, some_eq, List, [], ◌∷◌, if◌then◌else◌,
  ltb, length, get_elem?, arith,
}
use ssu_operating_system.Base.Int.{ℤ, pos, negsuc}
use ssu_operating_system.Base.Text.{Text}
use ssu_operating_system.Top.Columns.{minus}
use ssu_operating_system.Top.Record.{TopProc}
use ssu_operating_system.Top.Screen.{
  Column, pid_idx, user_idx, pr_idx, ni_idx, virt_idx, res_idx, shr_idx, s_idx, cpu_idx, mem_idx,
  time_p_idx, command_idx, idx, longest, width_of, column_width, draw_x,
}

pub longest-ge : (text : TopProc → Text) (w : ℕ) (procs : List TopProc) → w ≤ longest text w procs
unfolding longest
longest-ge text w [] = omega arith
longest-ge text w (p ∷ procs) =
    ground (arith, longest-ge text w procs, longest-ge text (length (text p)) procs)

pub longest-fits :
    (text : TopProc → Text) (w : ℕ) (procs : List TopProc) (i : ℕ) (p : TopProc)
    → get_elem? procs i ≡ some p
    → length (text p) ≤ longest text w procs
unfolding longest
longest-fits text w [] i p h = cc
longest-fits text w (q ∷ procs) zero p h =
    subst (λ x. length (text x) ≤ longest text w (q ∷ procs)) (some_eq h)
      (ground (arith, longest-ge text w procs, longest-ge text (length (text q)) procs))
longest-fits text w (q ∷ procs) (suc i) p h =
    longest-fits text (if ltb w (length (text q)) then length (text q) else w) procs i p h

pub column_width-idx :
    (procs : List TopProc) (c : Column) → column_width procs (idx c) ≡ width_of procs c
column_width-idx procs pid_idx = refl
column_width-idx procs user_idx = refl
column_width-idx procs pr_idx = refl
column_width-idx procs ni_idx = refl
column_width-idx procs virt_idx = refl
column_width-idx procs res_idx = refl
column_width-idx procs shr_idx = refl
column_width-idx procs s_idx = refl
column_width-idx procs cpu_idx = refl
column_width-idx procs mem_idx = refl
column_width-idx procs time_p_idx = refl
column_width-idx procs command_idx = refl

-- The text stands from the one place on, and a blank is left in front of the other.
abbrev pub IsWithin : ℕ → ℕ → ℤ → Text → Type 0
IsWithin from next (pos x) t = (from ≤ x) × (x + length t < next)
IsWithin from next (negsuc n) t = ⊥

minus-IsWithin :
    (from next a : ℕ) (t : Text)
    → from + length t ≤ a
    → a < next
    → IsWithin from next (minus a (length t)) t
minus-IsWithin from next a t l h =
    let inside : ltb a (length t) ≡ false = ground (arith, l) in
    rw inside (omega (arith, l), omega (arith, l, h))

pub draw_x-IsWithin :
    (c : Column) (start width : ℕ) (t : Text)
    → idx c < 11
    → length t ≤ width
    → IsWithin start (width + 2 + start) (draw_x c start width t) t
unfolding draw_x
draw_x-IsWithin user_idx start width t l h = (omega arith, omega (arith, h))
draw_x-IsWithin s_idx start width t l h = (omega arith, omega (arith, h))
draw_x-IsWithin command_idx start width t l h = absurd (omega (arith, l))
draw_x-IsWithin time_p_idx start width t l h =
    minus-IsWithin start (width + 2 + start) (start + width + 1) t (omega (arith, h)) (omega arith)
draw_x-IsWithin pid_idx start width t l h =
    minus-IsWithin start (width + 2 + start) (start + width) t (omega (arith, h)) (omega arith)
draw_x-IsWithin pr_idx start width t l h =
    minus-IsWithin start (width + 2 + start) (start + width) t (omega (arith, h)) (omega arith)
draw_x-IsWithin ni_idx start width t l h =
    minus-IsWithin start (width + 2 + start) (start + width) t (omega (arith, h)) (omega arith)
draw_x-IsWithin virt_idx start width t l h =
    minus-IsWithin start (width + 2 + start) (start + width) t (omega (arith, h)) (omega arith)
draw_x-IsWithin res_idx start width t l h =
    minus-IsWithin start (width + 2 + start) (start + width) t (omega (arith, h)) (omega arith)
draw_x-IsWithin shr_idx start width t l h =
    minus-IsWithin start (width + 2 + start) (start + width) t (omega (arith, h)) (omega arith)
draw_x-IsWithin cpu_idx start width t l h =
    minus-IsWithin start (width + 2 + start) (start + width) t (omega (arith, h)) (omega arith)
draw_x-IsWithin mem_idx start width t l h =
    minus-IsWithin start (width + 2 + start) (start + width) t (omega (arith, h)) (omega arith)
