-- ===== src/Crossroad/Ended.antt =====
-- When a thread of Assignment_6/program.c sets its `finish`, and what holds from then on.
use ssu_operating_system.Base.{
  ℕ, ◌≡◌, refl, Bool, true, false, ◌&&◌, inl, inr, ◌≢◌, Option, none, some, arith, Bool-cases,
  subst, sym, ap, ◌∙◌, ==_iff,
}
use ssu_operating_system.Crossroad.{
  Point, p1, p2, p3, p4, same, update, Road, Pc, asleep, awake, settling, gone, Manager, ready,
  resumed, before_middle, in_middle, before_end, in_end, over, System, enter_or_pass, is_last,
  wake_manager, deliver, wake, job, all_finished, signal,
}
use ssu_operating_system.Crossroad.Invariant.{same-eq, same_refl}

-- A thread that has set its `finish` is at its end and has counted all its vehicles, and job0 is at
-- its end only if all have.
pub record IsFinal (total : Point → ℕ) (r : Road) (m : Manager) (jobs : Point → Pc) : Type 0 where
  pub counts : (i : Point) → r.p_count i ≡ total i
  pub ended : (i : Point) → r.finish i ≡ true → (jobs i ≡ gone) × (r.job_count i ≡ total i)
  pub done : m ≡ over → all_finished r ≡ true

pub enter_or_pass-rest :
    (v : Point) (r : Road)
    → ((enter_or_pass v r).p_count ≡ r.p_count)
      × ((enter_or_pass v r).finish ≡ r.finish)
      × ((i : Point) → same v i ≡ false → (enter_or_pass v r).job_count i ≡ r.job_count i)
unfolding enter_or_pass
enter_or_pass-rest v r = (ground arith, ground arith, λ i h. ground (arith, h))

wake_manager-over : (m : Manager) → wake_manager m ≡ over → m ≡ over
unfolding wake_manager
wake_manager-over ready e = cc
wake_manager-over (resumed w) e = cc
wake_manager-over (before_middle w) e = cc
wake_manager-over (in_middle w) e = cc
wake_manager-over before_end e = cc
wake_manager-over in_end e = cc
wake_manager-over over e = refl

asleep-gone : asleep ≢ gone
asleep-gone e = cc

awake-gone : awake ≢ gone
awake-gone e = cc

-- A signal does not wake a thread at its end.
pub signal-gone :
    (o : Option Point) (jobs : Point → Pc) (i : Point) → jobs i ≡ gone → signal o jobs i ≡ gone
unfolding wake deliver
signal-gone none jobs i g = g
signal-gone (some v) jobs i g = woken (jobs v) refl
  where
    woken : (pc : Pc) → jobs v ≡ pc → deliver pc v jobs i ≡ gone
    woken asleep e = elim (Bool-cases (same v i)) [
      | inl own ↦
          absurd (asleep-gone (sym e ∙ subst (λ j. jobs j ≡ gone) (sym (same-eq v i own)) g))
      | inr other ↦ rw other g
    ]
    woken awake e = g
    woken settling e = g
    woken gone e = g

all_finished-update :
    (v : Point) (finish : Point → Bool)
    → (finish p1 && (finish p2 && (finish p3 && finish p4))) ≡ true
    → (update finish v true p1
        && (update finish v true p2 && (update finish v true p3 && update finish v true p4)))
      ≡ true
all_finished-update v finish h = ground arith

-- A thread at work has not set its `finish`.
at_work :
    (total : Point → ℕ) (v i : Point) (s : System)
    → s.jobs v ≡ awake
    → IsFinal total s.road s.job0 s.jobs
    → s.road.finish i ≡ true
    → same v i ≡ false
at_work total v i s a h f = elim (Bool-cases (same v i)) [
  | inl own ↦
      absurd
        (awake-gone (sym a ∙ subst (λ j. s.jobs j ≡ gone) (sym (same-eq v i own)) (h.ended i f).0))
  | inr other ↦ other
]

job-last :
    (total : Point → ℕ) (v : Point) (s : System)
    → is_last v (enter_or_pass v s.road) ≡ true
    → IsFinal total s.road s.job0 s.jobs
    → IsFinal total
        (record (enter_or_pass v s.road) { finish = update (enter_or_pass v s.road).finish v true })
        (wake_manager s.job0)
        (update s.jobs v gone)
unfolding is_last
job-last total v s last h =
    let (counts, finish, others) = enter_or_pass-rest v s.road in
    record {
      counts = λ i. ap (λ f. f i) counts ∙ h.counts i;
      ended = λ i f. elim (Bool-cases (same v i)) [
        | inl own ↦
            subst
              (λ j.
                (update s.jobs v gone j ≡ gone) × ((enter_or_pass v s.road).job_count j ≡ total j))
              (same-eq v i own)
              (rw (same_refl v), (==_iff _ _).0 last ∙ (ap (λ f. f v) counts ∙ h.counts v))
        | inr other ↦
            let before = h.ended i (ap (λ g. g i) (sym finish) ∙ rw other at f) in
            (rw other before.0, others i other ∙ before.1)
      ];
      done = λ e.
          subst (λ g. all_finished (record (s.road) { finish = update g v true }) ≡ true)
            (sym finish)
            (all_finished-update v s.road.finish (h.done (wake_manager-over s.job0 e)));
    }

job-more :
    (total : Point → ℕ) (v : Point) (s : System)
    → s.jobs v ≡ awake
    → IsFinal total s.road s.job0 s.jobs
    → IsFinal total (enter_or_pass v s.road) (wake_manager s.job0) (update s.jobs v settling)
job-more total v s a h =
    let (counts, finish, others) = enter_or_pass-rest v s.road in
    record {
      counts = λ i. ap (λ f. f i) counts ∙ h.counts i;
      ended = λ i f.
          (let g : s.road.finish i ≡ true = ap (λ g. g i) (sym finish) ∙ f in
            let other = at_work total v i s a h g in
            (rw other (h.ended i g).0, others i other ∙ (h.ended i g).1));
      done = λ e.
          subst (λ g. all_finished (record (s.road) { finish = g }) ≡ true) (sym finish)
            (h.done (wake_manager-over s.job0 e));
    }

pub job-IsFinal :
    (total : Point → ℕ) (v : Point) (s : System)
    → s.jobs v ≡ awake
    → IsFinal total s.road s.job0 s.jobs
    → IsFinal total (job v s).road (job v s).job0 (job v s).jobs
unfolding job
job-IsFinal total v s a h = elim (Bool-cases (is_last v (enter_or_pass v s.road))) [
  | inl last ↦ rw last (job-last total v s last h)
  | inr more ↦ rw more (job-more total v s a h)
]

pub settle-IsFinal :
    (total : Point → ℕ) (v : Point) (s : System)
    → s.jobs v ≡ settling
    → IsFinal total s.road s.job0 s.jobs
    → IsFinal total s.road s.job0 (update s.jobs v asleep)
settle-IsFinal total v s a h = record {
  counts = h.counts;
  ended = λ i f. elim (Bool-cases (same v i)) [
    | inl own ↦ absurd (
        settling-gone
          (sym a ∙ subst (λ j. s.jobs j ≡ gone) (sym (same-eq v i own)) (h.ended i f).0))
    | inr other ↦ (rw other (h.ended i f).0, (h.ended i f).1)
  ];
  done = h.done;
}
  where
    settling-gone : settling ≢ gone
    settling-gone e = cc
