-- ===== src/Ps/Table/Align.antt =====
-- The columns of the table of Assignment_2/myps.c stand under their titles.
use ssu_operating_system.Base.{
  ℕ, zero, suc, ◌+◌, ◌-◌, ◌≤◌, ◌≡◌, refl, Bool, true, false, ◌&&◌, ◌||◌, not, some, List, [], ◌∷◌,
  ◌++◌, if◌then◌else◌, ltb, length, arith, length-append, length-replicate, get_elem?, some_eq,
  subst, sym, ◌∙◌,
}
use ssu_operating_system.Base.Int.{ℤ, pos}
use ssu_operating_system.Base.Text.{tenths, Text, codes, spaces, decimal}
use ssu_operating_system.Ps.Options.{Options}
use ssu_operating_system.Ps.Table.{
  Proc, Widths, widest, widths, hide, gap, left, right, when, header_prefix, row_prefix, c_cell,
  shows_stat,
}

-- A loop over the processes leaves a width that the title and every cell fit.
widest-ge : (cell : Proc → Text) (w : ℕ) (procs : List Proc) → w ≤ widest cell w procs
unfolding widest
widest-ge cell w [] = omega arith
widest-ge cell w (p ∷ procs) =
    ground (arith, widest-ge cell w procs, widest-ge cell (length (cell p)) procs)

widest-fits :
    (cell : Proc → Text) (w : ℕ) (procs : List Proc) (i : ℕ) (p : Proc)
    → get_elem? procs i ≡ some p
    → length (cell p) ≤ widest cell w procs
unfolding widest
widest-fits cell w [] i p h = cc
widest-fits cell w (q ∷ procs) zero p h =
    let e : q ≡ p = some_eq h in
    subst (λ x. length (cell x) ≤ widest cell w (q ∷ procs)) e
      (ground (arith, widest-ge cell w procs, widest-ge cell (length (cell q)) procs))
widest-fits cell w (q ∷ procs) (suc i) p h =
    widest-fits cell (if ltb w (length (cell q)) then length (cell q) else w) procs i p h

length-spaces : (n : ℕ) → length (spaces n) ≡ n
length-spaces n = length-replicate n b' '

length-left : (w : ℕ) (cell : Text) → length cell ≤ w → length (left (pos w) cell) ≡ w + 1
unfolding left gap
length-left w cell h = omega (
  arith,
  length-append cell (spaces (w + 0 - length cell) ++ (b' ' ∷ [])),
  length-append (spaces (w + 0 - length cell)) (b' ' ∷ []),
  length-spaces (w + 0 - length cell),
)

length-right :
    (w extra : ℕ) (cell : Text)
    → length cell ≤ w
    → length (right (pos w) extra cell) ≡ w + extra + 1
unfolding right gap
length-right w extra cell h = omega (
  arith,
  length-append (spaces (w + extra - length cell)) (cell ++ (b' ' ∷ [])),
  length-append cell (b' ' ∷ []),
  length-spaces (w + extra - length cell),
)

same-append :
    (a a' b b' : Text)
    → length a ≡ length a'
    → length b ≡ length b'
    → length (a ++ b) ≡ length (a' ++ b')
same-append a a' b b' h k = omega (arith, length-append a b, length-append a' b')

same-when :
    (b : Bool) (s s' : Text)
    → (b ≡ true → length s ≡ length s')
    → length (when b s) ≡ length (when b s')
same-when true s s' h = h refl
same-when false s s' h = refl

same-left :
    (z : ℤ) (w : ℕ) (s s' : Text)
    → z ≡ pos w
    → length s ≤ w
    → length s' ≤ w
    → length (left z s) ≡ length (left z s')
same-left z w s s' e h h' = rw e (length-left w s h ∙ sym (length-left w s' h'))

same-right :
    (z : ℤ) (w extra : ℕ) (s s' : Text)
    → z ≡ pos w
    → length s ≤ w
    → length s' ≤ w
    → length (right z extra s) ≡ length (right z extra s')
same-right z w extra s s' e h h' =
    rw e (length-right w extra s h ∙ sym (length-right w extra s' h'))

-- The title STAT is put to the right, the cell to the left with three spaces before it.
same-stat :
    (z : ℤ) (w : ℕ) (s s' : Text)
    → z ≡ pos w
    → length s ≤ w
    → length s' ≤ w
    → length (codes "   " ++ left z s) ≡ length (right z 3 s')
same-stat z w s s' e h h' = rw e (
    omega (
      arith,
      length-append (codes "   ") (left (pos w) s),
      length-left w s h,
      length-right w 3 s' h',
    ))

-- No column is printed that the options leave out: with `f` neither `u` nor STAT.
abbrev is_plain : Options → Bool
is_plain o = not (o.f && (o.u || shows_stat o))

module _ (o : Options) (w : Widths) (plain : is_plain o ≡ true) where
  abbrev v : Widths
  v = hide o w

  hide-u :
      o.u ≡ true
      → (v.user ≡ w.user)
        × (v.cpu ≡ w.cpu)
        × (v.mem ≡ w.mem)
        × (v.vsz ≡ w.vsz)
        × (v.rss ≡ w.rss)
        × (v.start ≡ w.start)
  unfolding hide
  hide-u h = ground arith

  hide-f : o.f ≡ true → (v.ppid ≡ w.ppid) × (v.c ≡ w.c) × (v.stime ≡ w.stime)
  unfolding hide
  hide-f h = ground arith

  hide-stat : shows_stat o ≡ true → v.stat ≡ w.stat
  unfolding hide
  hide-stat h = ground arith

hide-always :
    (o : Options) (w : Widths)
    → ((hide o w).uid ≡ w.uid)
      × ((hide o w).pid ≡ w.pid)
      × ((hide o w).tty ≡ w.tty)
      × ((hide o w).time ≡ w.time)
unfolding hide
hide-always o w = ground arith

module _ (o : Options) (procs : List Proc) (i : ℕ) (p : Proc) (listed : get_elem? procs i ≡ some p)
    (plain : is_plain o ≡ true) where
  abbrev table : Widths
  table = hide o (widths procs)

  fits : (cell : Proc → Text) (w : ℕ) → length (cell p) ≤ widest cell w procs
  fits cell w = widest-fits cell w procs i p listed

  same-left_column :
      (b : Bool) (z : ℤ) (cell : Proc → Text) (title : Text)
      → (b ≡ true → z ≡ pos (widest cell (length title) procs))
      → length (when b (left z (cell p))) ≡ length (when b (left z title))
  same-left_column b z cell title e = same-when b _ _ (λ h.
      same-left z (widest cell (length title) procs) (cell p) title (e h) (fits cell (length title))
        (widest-ge cell (length title) procs))

  same-right_column :
      (b : Bool) (z : ℤ) (extra : ℕ) (cell : Proc → Text) (title : Text)
      → (b ≡ true → z ≡ pos (widest cell (length title) procs))
      → length (when b (right z extra (cell p))) ≡ length (when b (right z extra title))
  same-right_column b z extra cell title e = same-when b _ _ (λ h.
      same-right z (widest cell (length title) procs) extra (cell p) title (e h)
        (fits cell (length title)) (widest-ge cell (length title) procs))

  same_stat_column :
      length (when (shows_stat o) (codes "   " ++ left table.stat p.stat))
      ≡ length (when (shows_stat o) (right table.stat 3 (codes "STAT")))
  unfolding widths
  same_stat_column = same-when (shows_stat o) _ _ (λ h.
      same-stat table.stat (widest (λ q. q.stat) 4 procs) p.stat (codes "STAT")
        (hide-stat o (widths procs) plain h) (fits (λ q. q.stat) 4)
        (widest-ge (λ q. q.stat) 4 procs))

  -- Of the process at index `i` of the table, what is printed before its command is as long as what
  -- the header has before its last title, unless `f` is given with `u`, or with `a` or `x` without
  -- `e`.
  pub row_prefix-header_prefix : length (row_prefix o table p) ≡ length (header_prefix o table)
  unfolding row_prefix header_prefix widths
  row_prefix-header_prefix =
      let u = hide-u o (widths procs) plain in
      let f = hide-f o (widths procs) plain in
      let k = hide-always o (widths procs) in
      (same-append _ _ _ _
        (same-left_column o.u table.user (λ q. q.user) (codes "USER") (λ h. (u h).0))
        (same-append _ _ _ _ (same-left_column o.f table.uid (λ q. q.user) (codes "UID") (λ h. k.0))
          (same-append (codes "  ") (codes "  ") _ _ refl (
            same-append _ _ _ _
              (same-right_column true table.pid 1 (λ q. decimal q.pid) (codes "PID") (λ h. k.1))
              (same-append _ _ _ _
                (same-right_column o.f table.ppid 0 (λ q. decimal q.ppid) (codes "PPID")
                  (λ h. (f h).0))
                (same-append _ _ _ _
                  (same-right_column o.f table.c 0 c_cell (codes "C") (λ h. (f h).1))
                  (same-append _ _ _ _
                    (same-left_column o.f table.stime (λ q. q.start) (codes "STIME") (λ h. (f h).2))
                    (same-append _ _ _ _
                      (same-right_column o.u table.cpu 0 (λ q. tenths q.cpu) (codes "%CPU")
                        (λ h. (u h).1))
                      (same-append _ _ _ _
                        (same-right_column o.u table.mem 0 (λ q. tenths q.mem) (codes "%MEM")
                          (λ h. (u h).2))
                        (same-append _ _ _ _
                          (same-right_column o.u table.vsz 0 (λ q. decimal q.vsz) (codes "VSZ")
                            (λ h. (u h).3))
                          (same-append _ _ _ _
                            (same-right_column o.u table.rss 0 (λ q. decimal q.rss) (codes "RSS")
                              (λ h. (u h).4))
                            (same-append _ _ _ _
                              (same-left_column true table.tty (λ q. q.tty) (codes "TTY")
                                (λ h. k.2))
                              (same-append _ _ _ _ same_stat_column (
                                same-append _ _ _ _
                                  (same-left_column o.u table.start (λ q. q.start) (codes "START")
                                    (λ h. (u h).5))
                                  (same-right_column true table.time 2 (λ q. q.time) (codes "TIME")
                                    (λ h. k.3))))))))))))))))
