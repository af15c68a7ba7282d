-- ===== src/Lscpu/Cpu.antt =====
-- ReadCpuInfo of Assignment_2/mylscpu.c, over the bytes of /proc/cpuinfo.
use native.Mathlib.Numerals.{add-one}
use native.Mathlib.Nat.{
  suc-mul, one-mul, le_trans, le-div_iff_mul-le, div-mul-le_self, lt-div-mul-add, mul-le-mul_right,
  div-eq_of_lt,
}
use ssu_operating_system.Base.{
  ℕ, ◌+◌, ◌-◌, ◌*◌, ◌/◌, ◌<◌, ◌≤◌, ◌≡◌, refl, Option, none, some, List, [], ◌∷◌, if◌then◌else◌,
  arith, ◌==◌, inl, inr, ap, ◌∙◌, ◌⊎◌,
}
use ssu_operating_system.Base.Text.{Text, codes, starts_with}
use ssu_operating_system.Input.{reads, Cursor, read_to, after_colon, number, nth, IsAt, read_to_lem}

pub record CpuInfo : Type 0 where
  pub numofcpu : ℕ
  pub venderid : Text
  pub cpufamily : Text
  pub model : Text
  pub modelname : Text
  pub stepping : Text
  pub speed : Text
  pub siblings : ℕ
  pub cores : ℕ
  pub flags : Text
  pub bogomips : Text
  pub addrsize : Text
  pub threads : ℕ
  pub sockets : ℕ

-- The loop that counts the texts which begin with "processor".
pub count_processors : List Text → ℕ
count_processors [] = 0
count_processors (t ∷ ts) =
    (if starts_with t (codes "processor") then 1 else 0) + count_processors ts

abbrev pub field : Cursor → Text
field c = after_colon c.buf c.buf

-- The last lines: `none` is a division by 0.
unfoldable pub divide : CpuInfo → Option CpuInfo
divide i =
    if i.cores == 0
    then none
    else (let threads = i.siblings / i.cores in
        if threads == 0
        then none
        else some (record i { threads = threads; sockets = i.numofcpu / threads / i.cores }))

-- The rows in the order in which they are read, with the fields not yet read left at 0.
unfoldable pub read_cpu_info : Text → Option CpuInfo
read_cpu_info file =
    let ts = reads file in
    let c = read_to 2 (record { cnt = 0; buf = []; rest = ts }) in
    let c3 = read_to 3 c in
    let c4 = read_to 4 c3 in
    let c5 = read_to 5 c4 in
    let c6 = read_to 6 c5 in
    let c8 = read_to 8 c6 in
    let c11 = read_to 11 c8 in
    let c13 = read_to 13 c11 in
    let c20 = read_to 20 c13 in
    let c22 = read_to 22 c20 in
    let c26 = read_to 26 c22 in
    divide (record {
      numofcpu = count_processors ts;
      venderid = field c;
      cpufamily = field c3;
      model = field c4;
      modelname = field c5;
      stepping = field c6;
      speed = field c8;
      siblings = number 0 (field c11);
      cores = number 0 (field c13);
      flags = field c20;
      bogomips = field c22;
      addrsize = field c26;
      threads = 0;
      sockets = 0;
    })

-- What stands after the first colon of the row, from the second place on, or the row if it has none.
abbrev pub row_value : Text → ℕ → Text
row_value file row = after_colon (nth (reads file) (row - 1)) (nth (reads file) (row - 1))

-- The values at the rows of the file that the program names.
pub values : Text → CpuInfo
values file = record {
  numofcpu = count_processors (reads file);
  venderid = row_value file 2;
  cpufamily = row_value file 3;
  model = row_value file 4;
  modelname = row_value file 5;
  stepping = row_value file 6;
  speed = row_value file 8;
  siblings = number 0 (row_value file 11);
  cores = number 0 (row_value file 13);
  flags = row_value file 20;
  bogomips = row_value file 22;
  addrsize = row_value file 26;
  threads = 0;
  sockets = 0;
}

-- Going on from a place before row `n + 1`, the field is the value at that row, and the place is
-- behind it.
field-read_to :
    (file : Text) (row n : ℕ) (c : Cursor)
    → IsAt (reads file) row c
    → row ≤ n
    → IsAt (reads file) (n + 1) (read_to (n + 1) c)
      × (field (read_to (n + 1) c) ≡ row_value file (n + 1))
field-read_to file row n c v h =
    let (w, e) = read_to_lem (reads file) row n c v h in
    (w, ap (λ b. after_colon b b) (e ∙ ap (nth (reads file)) (omega arith)))

-- ReadCpuInfo finds each value at its own row of the file, counting as rows the texts that `fgets`
-- stores, and then divides.
pub read_cpu_info-values : (file : Text) → read_cpu_info file ≡ divide (values file)
unfolding read_cpu_info values
read_cpu_info-values file =
    let start : Cursor = record { cnt = 0; buf = []; rest = reads file } in
    let r2 = field-read_to file 0 1 start (record { at = refl; behind = refl }) (omega arith) in
    let r3 = field-read_to file 2 2 (read_to 2 start) r2.0 (omega arith) in
    let r4 = field-read_to file 3 3 _ r3.0 (omega arith) in
    let r5 = field-read_to file 4 4 _ r4.0 (omega arith) in
    let r6 = field-read_to file 5 5 _ r5.0 (omega arith) in
    let r8 = field-read_to file 6 7 _ r6.0 (omega arith) in
    let r11 = field-read_to file 8 10 _ r8.0 (omega arith) in
    let r13 = field-read_to file 11 12 _ r11.0 (omega arith) in
    let r20 = field-read_to file 13 19 _ r13.0 (omega arith) in
    let r22 = field-read_to file 20 21 _ r20.0 (omega arith) in
    let r26 = field-read_to file 22 25 _ r22.0 (omega arith) in
    rw (r2.1, r3.1, r4.1, r5.1, r6.1, r8.1, r11.1, r13.1, r20.1, r22.1, r26.1)

div_pos : (a b : ℕ) → 0 < b → b ≤ a → 0 < a / b
div_pos a b h k = (le-div_iff_mul-le h).1 (rw one-mul k)

-- ReadCpuInfo gives a result if there is a core and no fewer siblings than cores. The
-- threads of a core, for all its cores, are no more than the siblings, and there would be more with
-- one thread more; and the sockets' threads are no more than the processors.
divide_lem :
    (i : CpuInfo)
    → 0 < i.cores
    → i.cores ≤ i.siblings
    → (j : CpuInfo) × (divide i ≡ some j)
      × (j.threads * i.cores ≤ i.siblings)
      × (i.siblings < (j.threads + 1) * i.cores)
      × (j.sockets * i.cores * j.threads ≤ i.numofcpu)
unfolding divide
divide_lem i h k =
    let threads = i.siblings / i.cores in
    let sockets = i.numofcpu / threads / i.cores in
    let some_threads = div_pos i.siblings i.cores h k in
    (
      record i { threads = threads; sockets = sockets },
      ground (arith, some_threads),
      div-mul-le_self i.siblings i.cores,
      rw (add-one threads, suc-mul threads i.cores) (lt-div-mul-add h),
      le_trans (mul-le-mul_right threads (div-mul-le_self (i.numofcpu / threads) i.cores))
          (div-mul-le_self i.numofcpu threads),
    )

-- With no core, or with fewer siblings than cores, ReadCpuInfo divides by 0.
divide-none : (i : CpuInfo) → (i.cores ≡ 0) ⊎ (i.siblings < i.cores) → divide i ≡ none
unfolding divide
divide-none i (inl e) = rw e refl
divide-none i (inr h) = ground (arith, div-eq_of_lt h)
