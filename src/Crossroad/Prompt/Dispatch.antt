-- ===== src/Crossroad/Prompt/Dispatch.antt =====
-- Whom job0 of Assignment_6/program.c signals in a round, and what that leaves of the waiting list.
use ssu_operating_system.Base.{
  ℕ, zero, suc, ◌≡◌, refl, true, inl, inr, ◌≢◌, ◌⊎◌, Option, none, some, List, [], ◌∷◌, ◌==◌,
  if◌then◌else◌, arith, Bool-cases, subst, sym, get_elem?, set, length, length-set,
}
use ssu_operating_system.Crossroad.{
  Point, facing, same, Pc, awake, Manager, before_middle, before_end, remove, dispatch, starts,
}
use ssu_operating_system.Crossroad.Invariant.{Occupied, same-eq, same_refl, facing_other}
use ssu_operating_system.Crossroad.Waiting.{is_from, entering, starts-remove, set-restore}
use ssu_operating_system.Crossroad.Prompt.{Called, at_work}
use ssu_operating_system.Crossroad.Prompt.Arrival.{IsBlank}

-- job0 signals `v`, who waits or is on the crossroad, and the list holds the vehicles but for one
-- that enters.
pub record Signals (o : Option Point) (found : Option (Point × ℕ)) (ks : List (Option Point))
    (process : Point → ℕ) (out : Option Point × List (Option Point) × Manager) : Type 0 where
  pub v : Point
  pub target : out.0 ≡ some v
  pub lets_on :
      (i : Point)
      → is_from i (entering o found) ≡ (if process v == 0 then is_from i (some v) else 0)
  pub present : (starts v ks ≢ 0) ⊎ (process v ≢ 0)
  pub calls : (jobs : Point → Pc) → jobs v ≡ awake → Called out.2 jobs
  pub rests : at_work out.2 ≡ 0
  pub same_length : length out.1 ≡ length ks
  pub kept : (n : ℕ) → IsBlank n ks → IsBlank n out.1

stands-starts :
    (k : Point) (ks : List (Option Point)) (j : ℕ)
    → get_elem? ks j ≡ some (some k)
    → starts k ks ≢ 0
stands-starts k ks j at z = absurd (ground (arith, z, starts-remove k k ks j at, same_refl k))

get_elem?-set-none :
    (ks : List (Option Point)) (j x : ℕ) (k : Point)
    → get_elem? (set ks j none) x ≡ some (some k)
    → get_elem? ks x ≡ some (some k)
get_elem?-set-none [] j x k e = e
get_elem?-set-none (o ∷ ks) zero zero k e = cc
get_elem?-set-none (o ∷ ks) zero (suc x) k e = e
get_elem?-set-none (o ∷ ks) (suc j) zero k e = e
get_elem?-set-none (o ∷ ks) (suc j) (suc x) k e = get_elem?-set-none ks j x k e

enters-Signals :
    (k : Point) (j : ℕ) (ks : List (Option Point)) (process : Point → ℕ)
    → get_elem? ks j ≡ some (some k)
    → Occupied none process
    → Signals none (some (k, j)) ks process (some k, set ks j none, before_end)
enters-Signals k j ks process at h = record {
  v = k;
  target = refl;
  lets_on = λ i. rw (h k) refl;
  present = inl (stands-starts k ks j at);
  calls = λ jobs a. (k, a);
  rests = refl;
  same_length = length-set ks j none;
  kept = λ n b x u m e. b x u m (get_elem?-set-none ks j x u e);
}

on_road : (w : Point) (process : Point → ℕ) → Occupied (some w) process → process w ≡ 1
on_road w process h = ground (arith, h w, same_refl w)

off_road :
    (w k : Point) (process : Point → ℕ)
    → same (facing w) k ≡ true
    → Occupied (some w) process
    → process k ≡ 0
off_road w k process f h =
    subst (λ u. process u ≡ 0) (same-eq (facing w) k f)
      (ground (arith, h (facing w), facing_other w))

-- The list is as it was.
passes-Signals :
    (w : Point) (found : Option (Point × ℕ)) (ks : List (Option Point)) (process : Point → ℕ)
    → entering (some w) found ≡ none
    → Occupied (some w) process
    → Signals (some w) found ks process (some w, ks, before_end)
passes-Signals w found ks process n h = record {
  v = w;
  target = refl;
  lets_on = λ i. rw (n, on_road w process h) refl;
  present = inr (λ z. absurd (omega (arith, z, on_road w process h)));
  calls = λ jobs a. (w, a);
  rests = refl;
  same_length = refl;
  kept = λ n b. b;
}

joins-Signals :
    (w k : Point) (j : ℕ) (ks : List (Option Point)) (process : Point → ℕ)
    → same (facing w) k ≡ true
    → get_elem? ks j ≡ some (some k)
    → Occupied (some w) process
    → Signals (some w) (some (k, j)) ks process (some k, set ks j none, before_middle w)
joins-Signals w k j ks process f at h = record {
  v = k;
  target = refl;
  lets_on = λ i. rw (f, off_road w k process f h) refl;
  present = inl (stands-starts k ks j at);
  calls = λ jobs a. subst (λ u. jobs u ≡ awake) (sym (same-eq (facing w) k f)) a;
  rests = refl;
  same_length = length-set ks j none;
  kept = λ n b x u m e. b x u m (get_elem?-set-none ks j x u e);
}

pub dispatch-Signals :
    (o : Option Point) (found : Option (Point × ℕ)) (ks : List (Option Point)) (process : Point → ℕ)
    → ((k : Point) (j : ℕ) → found ≡ some (k, j) → get_elem? ks j ≡ some (some k))
    → (found ≡ none → o ≢ none)
    → Occupied o process
    → Signals o found ks process (dispatch o found (remove found ks))
unfolding dispatch remove
dispatch-Signals none none ks process at n h = absurd (n refl refl)
dispatch-Signals none (some (k, j)) ks process at n h =
    enters-Signals k j ks process (at k j refl) h
dispatch-Signals (some w) none ks process at n h = passes-Signals w none ks process refl h
dispatch-Signals (some w) (some (k, j)) ks process at n h = elim (Bool-cases (same (facing w) k)) [
  | inl faces_it ↦ rw faces_it (joins-Signals w k j ks process faces_it (at k j refl) h)
  | inr other ↦
      rw (other, set-restore k ks j (at k j refl))
        (passes-Signals w (some (k, j)) ks process (rw other refl) h)
]
