-- ===== src/Ps/Table/Rows.antt =====
-- Which lines PrintPS of Assignment_2/myps.c prints.
use ssu_operating_system.Base.{
  ℕ, ◌<◌, ◌≤◌, ◌≡◌, refl, true, false, ◌&&◌, not, none, some, List, [], ◌∷◌, ◌++◌, if◌then◌else◌,
  length, All, arith, Bool-cases, inl, inr, map, take, ◌⊎◌, ◌↔◌,
}
use ssu_operating_system.Base.Text.{Text}
use ssu_operating_system.Ps.Options.{Options}
use ssu_operating_system.Ps.Table.{
  Proc, Widths, widths, hide, header_prefix, header_title, row_prefix, row_command, emit, is_listed,
  rows, print_ps,
}

-- The number stands in the list.
abbrev Listed : ℕ → List ℕ → Type 0
Listed pid [] = ⊥
Listed pid (q ∷ list) = (pid ≡ q) ⊎ Listed pid list

is_listed_iff : (pid : ℕ) (list : List ℕ) → (is_listed pid list ≡ true) ↔ Listed pid list
unfolding is_listed
is_listed_iff pid [] = (λ h. cc, λ h. absurd h)
is_listed_iff pid (q ∷ list) = ground (arith, is_listed_iff pid list)

-- The processes that the options leave in the table, in order.
abbrev chosen : Options → List Proc → List Proc
chosen o [] = []
chosen o (p ∷ procs) =
    if o.p && not (is_listed p.pid o.pid_list) then chosen o procs else p ∷ chosen o procs

-- A text that `buf` has room for.
abbrev pub IsShort : Text → Type 0
IsShort text = length text < 1024

abbrev pub row : Options → Widths → Proc → Text
row o w p = row_prefix o w p ++ row_command o p

abbrev pub header : Options → Widths → Text
header o w = header_prefix o w ++ header_title o

emit-some :
    (cols : ℕ) (text : Text) → cols < 1024 → IsShort text → emit cols text ≡ some (take cols text)
unfolding emit
emit-some cols text h k = ground arith

emit-none : (cols : ℕ) (text : Text) → 1024 ≤ length text → emit cols text ≡ none
unfolding emit
emit-none cols text h = ground arith

rows-map :
    (o : Options) (cols : ℕ) (w : Widths) (procs : List Proc)
    → cols < 1024
    → All (λ p. IsShort (row o w p)) (chosen o procs)
    → rows o cols w procs ≡ some (map (λ p. take cols (row o w p)) (chosen o procs))
unfolding rows
rows-map o cols w [] h k = refl
rows-map o cols w (p ∷ procs) h k = elim (Bool-cases (o.p && not (is_listed p.pid o.pid_list))) [
  | inl skipped ↦
      let k' : All (λ q. IsShort (row o w q)) (chosen o procs) = (rw skipped at k) in
      rw skipped (rows-map o cols w procs h k')
  | inr shown ↦
      let k' : All (λ q. IsShort (row o w q)) (p ∷ chosen o procs) = (rw shown at k) in
      rw (shown, emit-some cols (row o w p) h k'.0, rows-map o cols w procs h k'.1)
]

-- On a terminal of fewer than 1024 columns, if the header and the row of each process left in the
-- table are shorter than `buf`, PrintPS prints the header, unless `h` is given, and then the row of
-- each process in order (with `p`, of those whose number was given), each cut at the width.
pub print_ps_lem :
    (o : Options) (cols : ℕ) (procs : List Proc)
    → cols < 1024
    → IsShort (header o (hide o (widths procs)))
    → All (λ p. IsShort (row o (hide o (widths procs)) p)) (chosen o procs)
    → print_ps o cols procs
      ≡ some (
          (if o.h then [] else take cols (header o (hide o (widths procs))) ∷ [])
          ++ map (λ p. take cols (row o (hide o (widths procs)) p)) (chosen o procs))
unfolding print_ps
print_ps_lem o cols procs h hd k = elim (Bool-cases o.h) [
  | inl bare ↦ simp bare (rows-map o cols (hide o (widths procs)) procs h k)
  | inr titled ↦ simp (
    titled,
    emit-some cols (header o (hide o (widths procs))) h hd,
    rows-map o cols (hide o (widths procs)) procs h k,
  )
]

-- A process in the table whose row is as long as `buf` makes PrintPS write past its end.
print_ps-overflow :
    (o : Options) (cols : ℕ) (w : Widths) (p : Proc) (procs : List Proc)
    → (o.p && not (is_listed p.pid o.pid_list)) ≡ false
    → 1024 ≤ length (row o w p)
    → rows o cols w (p ∷ procs) ≡ none
unfolding rows
print_ps-overflow o cols w p procs h k = rw (h, emit-none cols (row o w p) k)
