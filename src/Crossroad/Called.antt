-- ===== src/Crossroad/Called.antt =====
-- Whom a round of job0 in Assignment_6/program.c signals, and what that leaves of `waiting_list`.
use ssu_operating_system.Base.{
  ℕ, ◌+◌, ◌≡◌, refl, false, ◌⊎◌, inl, inr, Option, none, some, List, if◌then◌else◌, Bool-cases, sym,
  ◌∙◌, ap,
}
use ssu_operating_system.Crossroad.{
  Point, p1, p2, p3, p4, Road, System, facing, same, pick, remove, dispatch, all_finished, signal,
  manage, starts,
}
use ssu_operating_system.Crossroad.Invariant.{same-eq, same_refl}
use ssu_operating_system.Crossroad.Waiting.{dispatch-starts, is_from, entering}

-- The vehicle that is signalled, unless it is the one on the crossroad.
abbrev pub newly : Option Point → Option Point → Option Point
newly place none = none
newly none (some t) = some t
newly (some w) (some t) = if same w t then none else some t

-- Who may be signalled: anyone on a free crossroad, and else the vehicle there or one that faces it.
abbrev pub MayBeCalled : Option Point → Option Point → Type 0
MayBeCalled place none = Unit
MayBeCalled none (some t) = Unit
MayBeCalled (some w) (some t) = (t ≡ w) ⊎ (t ≡ facing w)

not_facing : (w : Point) → same w (facing w) ≡ false
not_facing p1 = refl
not_facing p2 = refl
not_facing p3 = refl
not_facing p4 = refl

dispatch-newly :
    (o : Option Point) (found : Option (Point × ℕ)) (ks : List (Option Point))
    → (newly o (dispatch o found ks).0 ≡ entering o found) × MayBeCalled o (dispatch o found ks).0
unfolding dispatch
dispatch-newly none none ks = (refl, tt)
dispatch-newly none (some (k, i)) ks = (refl, tt)
dispatch-newly (some w) none ks = (rw (same_refl w) refl, inl refl)
dispatch-newly (some w) (some (k, i)) ks = elim (Bool-cases (same (facing w) k)) [
  | inl faces_it ↦
      let is_k = same-eq (facing w) k faces_it in
      rw faces_it (rw (← is_k) (rw (not_facing w) refl, inr refl))
  | inr other ↦ rw other (rw (same_refl w) refl, inl refl)
]

-- In a round of job0, not all threads having ended, job0 signals nobody, or on a free crossroad some
-- vehicle, or the vehicle on it or one that faces it; and from each start point as many vehicles
-- wait behind the round as before, but for the one that is signalled, if it is not the one on the
-- crossroad.
pub manage-starts :
    (s : System) (r : Road)
    → all_finished r ≡ false
    → (target : Option Point) × ((manage s r).jobs ≡ signal target s.jobs)
      × MayBeCalled r.place target
      × ((i : Point)
          → starts i r.waiting_list
            ≡ is_from i (newly r.place target) + starts i (manage s r).road.waiting_list)
unfolding manage
manage-starts s r more =
    let found = pick r.place r.waiting_list in
    let out = dispatch r.place found (remove found r.waiting_list) in
    let (called, allowed) = dispatch-newly r.place found (remove found r.waiting_list) in
    (
      out.0,
      rw more refl,
      allowed,
      λ (i : Point). rw more (
          dispatch-starts r.place r.waiting_list i
          ∙ ap (λ o. is_from i o + starts i out.1) (sym called)),
    )
