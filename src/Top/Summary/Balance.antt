-- ===== src/Top/Summary/Balance.antt =====
-- What the lines above the columns in Assignment_2/mytop.c add up to.
use ssu_operating_system.Base.{
  ℕ, ◌+◌, ◌-◌, ◌^◌, ◌<◌, ◌≤◌, ◌≡◌, refl, Bool, some, List, [], ◌∷◌, if◌then◌else◌, length, arith,
}
use ssu_operating_system.Base.Text.{Text}
use ssu_operating_system.Input.{reads, read_to_lem, IsAt, nth}
use ssu_operating_system.Top.Summary.{
  Tasks, is_state, is_asleep, is_stopped, count_task, count_from, count_tasks, MemInfo,
  minus_wrapped, mem_info, row_number, read_meminfo,
}

-- How many states pass a test.
abbrev how_many : (Text → Bool) → List Text → ℕ
how_many test [] = 0
how_many test (stat ∷ stats) = (if test stat then 1 else 0) + how_many test stats

abbrev Counted : Tasks → Tasks → List Text → Type 0
Counted n m stats =
    (m.total ≡ n.total)
    × (m.running ≡ n.running + how_many (λ s. is_state s b'R') stats)
    × (m.sleeping ≡ n.sleeping + how_many is_asleep stats)
    × (m.stopped ≡ n.stopped + how_many is_stopped stats)
    × (m.zombie ≡ n.zombie + how_many (λ s. is_state s b'Z') stats)

count_task-one : (n : Tasks) (stat : Text) → Counted n (count_task n stat) (stat ∷ [])
unfolding count_task
count_task-one n [] = ground arith
count_task-one n (c ∷ []) = ground arith
count_task-one n (c ∷ d ∷ cs) = ground arith

count_from-Counted : (stats : List Text) (n : Tasks) → Counted n (count_from n stats) stats
unfolding count_from
count_from-Counted [] n = ground arith
count_from-Counted (stat ∷ stats) n =
    ground (arith, count_task-one n stat, count_from-Counted stats (count_task n stat))

-- The second line counts the processes, and those of each kind of state, each of them once at most.
pub count_tasks-Counted :
    (stats : List Text)
    → let n = count_tasks stats in
      (n.total ≡ length stats)
      × (n.running ≡ how_many (λ s. is_state s b'R') stats)
      × (n.sleeping ≡ how_many is_asleep stats)
      × (n.stopped ≡ how_many is_stopped stats)
      × (n.zombie ≡ how_many (λ s. is_state s b'Z') stats)
unfolding count_tasks
count_tasks-Counted stats = omega (
  arith,
  count_from-Counted stats
      (record { total = length stats; running = 0; sleeping = 0; stopped = 0; zombie = 0 }),
)

minus_wrapped_lem : (a b : ℕ) → b ≤ a → a < 2 ^ 64 → minus_wrapped a b ≡ a - b
minus_wrapped_lem a b l h = omega arith

-- The parts add up to the whole.
abbrev pub IsBalanced : MemInfo → Type 0
IsBalanced m =
    (m.mem_used + m.mem_free + m.buff_cache ≡ m.mem_total)
    × (m.swap_used + m.swap_free ≡ m.swap_total)

mem_info-IsBalanced :
    (total free available buffers cached swap_total swap_free s_reclaimable : ℕ)
    → free + buffers + cached + s_reclaimable ≤ total
    → total < 2 ^ 64
    → swap_free ≤ swap_total
    → swap_total < 2 ^ 64
    → IsBalanced (mem_info total free available buffers cached swap_total swap_free s_reclaimable)
unfolding mem_info
mem_info-IsBalanced total free available buffers cached st sf sr l h k g =
    let u1 = minus_wrapped_lem total free (omega (arith, l)) h in
    let u2 = minus_wrapped_lem (total - free) buffers (omega (arith, l)) (omega (arith, h)) in
    let u3 =
      minus_wrapped_lem (total - free - buffers) cached (omega (arith, l)) (omega (arith, h)) in
    let u4 =
      minus_wrapped_lem (total - free - buffers - cached) sr (omega (arith, l))
        (omega (arith, h)) in
    (rw (u1, u2, u3, u4) (omega (arith, l, h)), rw (minus_wrapped_lem st sf k g) (omega (arith, k)))

-- Where the rows of /proc/meminfo that mytop goes on to have numbers, each number of the memory is
-- read from its own row; used, free and buff/cache add up to the total, and so do those of the swap,
-- if the parts that are read are no more than the totals and these fit 64 bits.
pub read_meminfo-IsBalanced :
    (file : Text) (total free available buffers cached swap_total swap_free s_reclaimable : ℕ)
    → row_number (nth (reads file) 0) ≡ some total
    → row_number (nth (reads file) 1) ≡ some free
    → row_number (nth (reads file) 2) ≡ some available
    → row_number (nth (reads file) 3) ≡ some buffers
    → row_number (nth (reads file) 4) ≡ some cached
    → row_number (nth (reads file) 14) ≡ some swap_total
    → row_number (nth (reads file) 15) ≡ some swap_free
    → row_number (nth (reads file) 23) ≡ some s_reclaimable
    → free + buffers + cached + s_reclaimable ≤ total
    → total < 2 ^ 64
    → swap_free ≤ swap_total
    → swap_total < 2 ^ 64
    → let m = mem_info total free available buffers cached swap_total swap_free s_reclaimable in
      (read_meminfo file ≡ some m) × IsBalanced m
unfolding read_meminfo
read_meminfo-IsBalanced file total free available buffers cached st sf sr e1 e2 e3 e4 e5 e6 e7 e8 l
      h k g =
    let ts = reads file in
    let start : IsAt ts 0 (record { cnt = 0; buf = []; rest = ts }) = record {
      at = refl;
      behind = refl;
    } in
    let (a1, b1) = read_to_lem ts 0 0 _ start (omega arith) in
    let (a2, b2) = read_to_lem ts 1 1 _ a1 (omega arith) in
    let (a3, b3) = read_to_lem ts 2 2 _ a2 (omega arith) in
    let (a4, b4) = read_to_lem ts 3 3 _ a3 (omega arith) in
    let (a5, b5) = read_to_lem ts 4 4 _ a4 (omega arith) in
    let (a15, b15) = read_to_lem ts 5 14 _ a5 (omega arith) in
    let (a16, b16) = read_to_lem ts 15 15 _ a15 (omega arith) in
    let (a24, b24) = read_to_lem ts 16 23 _ a16 (omega arith) in
    (
      simp (b24, b16, b15, b5, b4, b3, b2, b1, e1, e2, e3, e4, e5, e6, e7, e8) refl,
      mem_info-IsBalanced total free available buffers cached st sf sr l h k g,
    )
