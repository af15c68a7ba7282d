-- ===== src/Crossroad/Prompt/Heard.antt =====
-- A signal of job0 of Assignment_6/program.c to a vehicle's thread that is in its wait.
use ssu_operating_system.Base.{
  ℕ, ◌≡◌, refl, true, false, inl, inr, ◌≢◌, ◌⊎◌, some, ◌==◌, if◌then◌else◌, arith, Bool-cases,
  subst,
}
use ssu_operating_system.Crossroad.{
  Point, same, update, Road, Pc, asleep, awake, settling, gone, deliver, wake, starts,
}
use ssu_operating_system.Crossroad.Invariant.{Quiet, same-eq, same_refl}
use ssu_operating_system.Crossroad.Waiting.{is_from}
use ssu_operating_system.Crossroad.Count.{pending, counted, Quiet-pending}

-- A thread in its wait hears the signal.
pub wake-asleep :
    (v : Point) (jobs : Point → Pc) → jobs v ≡ asleep → wake v jobs ≡ update jobs v awake
unfolding wake deliver
wake-asleep v jobs e = rw e refl

pub woken-pending :
    (v : Point) (jobs : Point → Pc) (process : Point → ℕ) (i : Point)
    → Quiet jobs
    → pending (update jobs v awake) process i ≡ (if process v == 0 then is_from i (some v) else 0)
woken-pending v jobs process i q = elim (Bool-cases (same v i)) [
  | inl own ↦
      subst
        (λ j.
          pending (update jobs v awake) process j
          ≡ (if process v == 0 then is_from j (some v) else 0))
        (same-eq v i own) (ground (arith, same_refl v))
  | inr other ↦ ground (arith, other, Quiet-pending jobs process i q)
]

-- A vehicle that waits or is on the crossroad has a thread in its wait.
pub present-asleep :
    (total : Point → ℕ) (v : Point) (r : Road) (jobs : Point → Pc)
    → counted r jobs v ≡ total v
    → (starts v r.waiting_list ≢ 0) ⊎ (r.process v ≢ 0)
    → r.finish v ≡ (r.job_count v == total v)
    → (jobs v ≡ gone → r.finish v ≡ true)
    → jobs v ≢ awake
    → jobs v ≢ settling
    → jobs v ≡ asleep
present-asleep total v r jobs c p f g a t = at_rest (jobs v) refl
  where
    left : (r.job_count v == total v) ≡ false
    left = ground (arith, c, p)

    at_rest : (pc : Pc) → jobs v ≡ pc → jobs v ≡ asleep
    at_rest asleep e = e
    at_rest awake e = absurd (a e)
    at_rest settling e = absurd (t e)
    at_rest gone e = ground (arith, left, f, g e)

pub woken-gone : (v i : Point) (jobs : Point → Pc) → update jobs v awake i ≡ gone → jobs i ≡ gone
woken-gone v i jobs e = elim (Bool-cases (same v i)) [
  | inl own ↦ absurd (awake-gone (rw own at e))
  | inr other ↦ rw other at e
]
  where
    awake-gone : awake ≢ gone
    awake-gone q = cc
