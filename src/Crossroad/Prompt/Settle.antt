-- ===== src/Crossroad/Prompt/Settle.antt =====
-- The way of a thread of Assignment_6/program.c to its wait, in a run where no signal is lost.
use ssu_operating_system.Base.{ℕ, ◌≡◌, inl, inr, ◌≢◌, arith, Bool-cases, subst, sym, ◌∙◌}
use ssu_operating_system.Crossroad.{
  Point, p1, p2, p3, p4, facing, same, update, Pc, asleep, awake, settling, gone, Manager, ready,
  resumed, before_middle, in_middle, before_end, in_end, over, System, settle,
}
use ssu_operating_system.Crossroad.Invariant.{same-eq, same_refl}
use ssu_operating_system.Crossroad.Order.{Step-IsOrderly}
use ssu_operating_system.Crossroad.Count.{pending}
use ssu_operating_system.Crossroad.Prompt.{Called, IsLively}

settling-awake : settling ≢ awake
settling-awake e = cc

asleep-gone : asleep ≢ gone
asleep-gone e = cc

settle-pending :
    (v i : Point) (jobs : Point → Pc) (process : Point → ℕ)
    → jobs v ≡ settling
    → pending (update jobs v asleep) process i ≡ pending jobs process i
settle-pending v i jobs process a = elim (Bool-cases (same v i)) [
  | inl own ↦
      subst (λ j. pending (update jobs v asleep) process j ≡ pending jobs process j)
        (same-eq v i own) (ground (arith, a, same_refl v))
  | inr other ↦ ground (arith, other)
]

still_awake :
    (v u : Point) (jobs : Point → Pc)
    → jobs v ≡ settling
    → jobs u ≡ awake
    → update jobs v asleep u ≡ awake
still_awake v u jobs a c = elim (Bool-cases (same v u)) [
  | inl own ↦
      absurd (settling-awake (sym a ∙ subst (λ j. jobs j ≡ awake) (sym (same-eq v u own)) c))
  | inr other ↦ rw other c
]

settle-gone : (v i : Point) (jobs : Point → Pc) → update jobs v asleep i ≡ gone → jobs i ≡ gone
settle-gone v i jobs e = elim (Bool-cases (same v i)) [
  | inl own ↦ absurd (asleep-gone (rw own at e))
  | inr other ↦ rw other at e
]

settle-Called :
    (v : Point) (m : Manager) (jobs : Point → Pc)
    → jobs v ≡ settling
    → Called m jobs
    → Called m (update jobs v asleep)
settle-Called v ready jobs a c = tt
settle-Called v (resumed w) jobs a c = tt
settle-Called v (before_middle w) jobs a c = still_awake v (facing w) jobs a c
settle-Called v (in_middle w) jobs a c = still_awake v (facing w) jobs a c
settle-Called v before_end jobs a (u, c) = (u, still_awake v u jobs a c)
settle-Called v in_end jobs a (u, c) = (u, still_awake v u jobs a c)
settle-Called v over jobs a c = tt

-- Going to the wait keeps what holds between the steps.
pub settle-IsLively :
    (total : Point → ℕ) (v : Point) (s : System)
    → s.jobs v ≡ settling
    → IsLively total s
    → IsLively total (record s { jobs = update s.jobs v asleep })
settle-IsLively total v s a h =
    let same_pending = λ (i : Point). settle-pending v i s.jobs s.road.process a in
    record {
      orderly = Step-IsOrderly (settle {s = s} v a) h.orderly;
      all_counted = λ i. omega (arith, same_pending i, h.all_counted i);
      counts = h.counts;
      finished = h.finished;
      ended = λ i e. h.ended i (settle-gone v i s.jobs e);
      called = settle-Called v s.job0 s.jobs a h.called;
      blank = h.blank;
      room = h.room;
      enough =
          omega
            (arith, h.enough, same_pending p1, same_pending p2, same_pending p3, same_pending p4);
      packed = h.packed;
    }
