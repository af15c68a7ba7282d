-- ===== src/Lscpu/System.antt =====
-- ReadFileSystemCPU, ReadFileSystemNode and ReadFileSystemVul of Assignment_2/mylscpu.c, over the
-- text of each file and the entries of each directory.
use native.Mathlib.Nat.{mod-eq_of_lt}
use mathlib.Core.List.{Permᴰ}
use ssu_operating_system.Base.{
  ℕ, zero, suc, ◌+◌, ◌*◌, ◌/◌, ◌%◌, ◌^◌, ◌<◌, ◌≤◌, ◌≡◌, refl, Bool, true, false, Option, none, some,
  List, [], ◌∷◌, ◌++◌, if◌then◌else◌, ltb, leb, length, arith, ◌≢◌, inl, inr, Bool-cases, ap, ap₂,
  some_eq, Option-cases, ◌∙◌, ◌⊎◌, ◌&&◌, All, ◌>>=◌, get_elem?,
}
use ssu_operating_system.Base.Text.{Text, codes, starts_with, text_eq, text_eq_iff}
use ssu_operating_system.Input.{fgets, number}
use ssu_operating_system.Lscpu.Cpu.{CpuInfo}

-- `cacheStr`.
pub data Suffix : Type 0 where
  kib : Suffix
  mib : Suffix

-- A value of `cacheVal`, as the 32 bits of an `int`, with its `cacheStr`.
pub record Cache : Type 0 where
  cacheval : ℕ
  cachestr : Suffix

-- The first line of a size file is cut at the first byte that is not a digit and read by `atoi`, and
-- the product is stored in an `int`.
cache_size : Text → ℕ → ℕ
cache_size file copies = number 0 (fgets 1023 file).0 * copies % 2 ^ 32

-- The last loop: an `int` of at least 1024 is divided.
in_unit : ℕ → Cache
in_unit v =
    if leb 1024 v && ltb v (2 ^ 31)
    then record { cacheval = v / 1024; cachestr = mib }
    else record { cacheval = v; cachestr = kib }

-- `info.online` and the four caches, from the five files: `none` if one does not open.
read_file_system_cpu : CpuInfo → Option Text → List (Option Text) → Option (Text × List Cache)
read_file_system_cpu info (some online) (some idx0 ∷ some idx1 ∷ some idx2 ∷ some idx3 ∷ []) =
    some (
      (fgets 1023 online).0,
      in_unit (cache_size idx0 info.numofcpu)
          ∷ in_unit (cache_size idx1 info.numofcpu)
          ∷ in_unit (cache_size idx2 info.numofcpu)
          ∷ in_unit (cache_size idx3 info.sockets)
          ∷ [],
    )
read_file_system_cpu info online files = none

-- An entry of /sys/devices/system/node: its name, and what `stat` says, `none` for an error.
pub record Node : Type 0 where
  pub d_name : Text
  pub is_dir : Option Bool

read_file_system_node : List Node → Option ℕ
read_file_system_node [] = some 0
read_file_system_node (d ∷ ds) = do
  dir ← d.is_dir
  count ← read_file_system_node ds
  some (if dir && starts_with d.d_name (codes "node") then count + 1 else count)

-- A file of /sys/devices/system/cpu/vulnerabilities: its name and its text, `none` if it does not
-- open.
pub record Weakness : Type 0 where
  pub d_name : Text
  pub file : Option Text

-- The names that the nine tests look for, by their places in `info.vulnerability`.
abbrev names : List Text
names =
    codes "itlb_multihit"
    ∷ codes "l1tf"
    ∷ codes "mds"
    ∷ codes "meltdown"
    ∷ codes "spec_store_bypass"
    ∷ codes "spectre_v1"
    ∷ codes "spectre_v2"
    ∷ codes "srbds"
    ∷ codes "tsx_async_abort"
    ∷ []

-- The tests, one after another: the line goes to each place whose name is that of the file.
pub keep : Text → Text → List Text → List Text → List Text
keep name line [] vulnerability = vulnerability
keep name line (n ∷ ns) [] = []
keep name line (n ∷ ns) (v ∷ vs) = (if text_eq name n then line else v) ∷ keep name line ns vs

-- The loop over the directory, left at the first file that does not open.
pub read_file_system_vul : List Weakness → List Text → List Text
read_file_system_vul [] vulnerability = vulnerability
read_file_system_vul (d ∷ ds) vulnerability = elim d.file [
  | none ↦ vulnerability
  | some file ↦ read_file_system_vul ds (keep d.d_name (fgets 1023 file).0 names vulnerability)
]

keep-elsewhere :
    (name line n : Text) (ns vs : List Text) (i : ℕ)
    → get_elem? ns i ≡ some n
    → n ≢ name
    → get_elem? (keep name line ns vs) i ≡ get_elem? vs i
unfolding keep
keep-elsewhere name line n [] vs i h ne = refl
keep-elsewhere name line n (m ∷ ns) [] i h ne = refl
keep-elsewhere name line n (m ∷ ns) (v ∷ vs) zero h ne =
    ground (arith, text_eq_iff name m, some_eq h)
keep-elsewhere name line n (m ∷ ns) (v ∷ vs) (suc i) h ne = keep-elsewhere name line n ns vs i h ne

keep-here :
    (name line : Text) (ns vs : List Text) (i : ℕ)
    → get_elem? ns i ≡ some name
    → length ns ≤ length vs
    → get_elem? (keep name line ns vs) i ≡ some line
unfolding keep
keep-here name line [] vs i h k = cc
keep-here name line (m ∷ ns) [] i h k = absurd (omega (arith, k))
keep-here name line (m ∷ ns) (v ∷ vs) zero h k = ground (arith, text_eq_iff name m, some_eq h)
keep-here name line (m ∷ ns) (v ∷ vs) (suc i) h k = keep-here name line ns vs i h (omega (arith, k))

keep-length : (name line : Text) (ns vs : List Text) → length (keep name line ns vs) ≡ length vs
unfolding keep
keep-length name line [] vs = refl
keep-length name line (n ∷ ns) [] = refl
keep-length name line (n ∷ ns) (v ∷ vs) = ap suc (keep-length name line ns vs)

vul-untouched :
    (name : Text) (i : ℕ)
    → get_elem? names i ≡ some name
    → (ds : List Weakness) (vs : List Text) → All (λ d. name ≢ d.d_name) ds
    → get_elem? (read_file_system_vul ds vs) i ≡ get_elem? vs i
unfolding read_file_system_vul
vul-untouched name i at [] vs h = refl
vul-untouched name i at (d ∷ ds) vs (other, h) = elim (Option-cases d.file) [
  | inl shut ↦ rw shut refl
  | inr (file, opened) ↦ rw opened (
      vul-untouched name i at ds (keep d.d_name (fgets 1023 file).0 names vs) h
      ∙ keep-elsewhere d.d_name (fgets 1023 file).0 name names vs i at other)
]

-- ReadFileSystemVul stores the first line of a file at the place of its name, whatever the order
-- in which the directory lists the files, if this file and all the files before it open and no
-- later one has its name.
pub read_file_system_vul-line :
    (before after : List Weakness) (name file : Text) (i : ℕ) (vs : List Text)
    → length vs ≡ 9
    → get_elem? names i ≡ some name
    → All (λ d. d.file ≢ none) before
    → All (λ d. name ≢ d.d_name) after
    → get_elem?
        (read_file_system_vul (before ++ (record { d_name = name; file = some file } ∷ after)) vs)
        i
      ≡ some (fgets 1023 file).0
unfolding read_file_system_vul
read_file_system_vul-line [] after name file i vs l at h k =
    vul-untouched name i at after (keep name (fgets 1023 file).0 names vs) k
    ∙ keep-here name (fgets 1023 file).0 names vs i at (omega (arith, l))
read_file_system_vul-line (d ∷ before) after name file i vs l at (opens, h) k =
    elim (Option-cases d.file) [
      | inl shut ↦ absurd (opens shut)
      | inr (text, opened) ↦ rw opened (
          read_file_system_vul-line before after name file i
            (keep d.d_name (fgets 1023 text).0 names vs)
            (keep-length d.d_name (fgets 1023 text).0 names vs ∙ l) at h k)
    ]

-- A file that does not open ends the loop: no file after it in the directory is looked at.
read_file_system_vul-break :
    (before after : List Weakness) (name : Text) (vs : List Text)
    → read_file_system_vul (before ++ (record { d_name = name; file = none } ∷ after)) vs
      ≡ read_file_system_vul before vs
unfolding read_file_system_vul
read_file_system_vul-break [] after name vs = refl
read_file_system_vul-break (d ∷ before) after name vs = elim (Option-cases d.file) [
  | inl shut ↦ rw shut refl
  | inr (file, opened) ↦
      rw opened
        (read_file_system_vul-break before after name (keep d.d_name (fgets 1023 file).0 names vs))
]

counts_swap :
    (a b : Bool) (n : ℕ)
    → (if a then (if b then n + 1 else n) + 1 else (if b then n + 1 else n))
      ≡ (if b then (if a then n + 1 else n) + 1 else (if a then n + 1 else n))
counts_swap true true n = refl
counts_swap true false n = refl
counts_swap false true n = refl
counts_swap false false n = refl

node-swap :
    (d e : Node) (ds : List Node)
    → read_file_system_node (d ∷ e ∷ ds) ≡ read_file_system_node (e ∷ d ∷ ds)
unfolding read_file_system_node
node-swap d e ds = elim (Option-cases d.is_dir) [
  | inl bad_d ↦ elim (Option-cases e.is_dir) [
    | inl bad_e ↦ simp (bad_d, bad_e) refl
    | inr (y, good_e) ↦ elim (Option-cases (read_file_system_node ds)) [
      | inl bad ↦ simp (bad_d, good_e, bad) refl
      | inr (n, good) ↦ simp (bad_d, good_e, good) refl
    ]
  ]
  | inr (x, good_d) ↦ elim (Option-cases e.is_dir) [
    | inl bad_e ↦ elim (Option-cases (read_file_system_node ds)) [
      | inl bad ↦ simp (good_d, bad_e, bad) refl
      | inr (n, good) ↦ simp (good_d, bad_e, good) refl
    ]
    | inr (y, good_e) ↦ elim (Option-cases (read_file_system_node ds)) [
      | inl bad ↦ simp (good_d, good_e, bad) refl
      | inr (n, good) ↦
          simp (good_d, good_e, good)
            (ap some (
              counts_swap (x && starts_with d.d_name (codes "node"))
                (y && starts_with e.d_name (codes "node")) n))
    ]
  ]
]

-- The number of nodes, and whether there is a `stat` error, do not depend on the order in which
-- the directory lists its entries.
read_file_system_node-perm :
    {ds es : List Node} → Permᴰ ds es → read_file_system_node ds ≡ read_file_system_node es
unfolding read_file_system_node
read_file_system_node-perm Permᴰ.nil = refl
read_file_system_node-perm (Permᴰ.cons {l₂ = es} e p) =
    rw (read_file_system_node-perm p) (ap (λ d. read_file_system_node (d ∷ es)) e)
read_file_system_node-perm (Permᴰ.swap {a = d} {b = e} {l = ds} p q) =
    node-swap d e ds ∙ ap₂ (λ x y. read_file_system_node (x ∷ y ∷ ds)) q p
read_file_system_node-perm (Permᴰ.trans p q) =
    read_file_system_node-perm p ∙ read_file_system_node-perm q

exact_units :
    (size : ℕ)
    → size < 2 ^ 31
    → let c = in_unit (size % 2 ^ 32) in
      ((c.cachestr ≡ kib) × (c.cacheval ≡ size) × (size < 1024))
      ⊎ ((c.cachestr ≡ mib)
          × (1024 * c.cacheval ≤ size)
          × (size < 1024 * (c.cacheval + 1))
          × (1024 ≤ size))
unfolding in_unit
exact_units size h =
    rw (mod-eq_of_lt {n = size} {m = 2 ^ 32} (omega arith))
      (elim (Bool-cases (ltb size 1024)) [ inl small ↦ ground arith | inr large ↦ ground arith ])

-- A cache whose size, for all its copies, an `int` can hold is reported exactly in KiB below 1024
-- KiB, and in whole MiB, rounded down, from there on.
in_unit-cache_size :
    (file : Text) (copies : ℕ)
    → number 0 (fgets 1023 file).0 * copies < 2 ^ 31
    → let size = number 0 (fgets 1023 file).0 * copies in
      let c = in_unit (cache_size file copies) in
      ((c.cachestr ≡ kib) × (c.cacheval ≡ size) × (size < 1024))
      ⊎ ((c.cachestr ≡ mib)
          × (1024 * c.cacheval ≤ size)
          × (size < 1024 * (c.cacheval + 1))
          × (1024 ≤ size))
unfolding in_unit cache_size
in_unit-cache_size file copies h = exact_units (number 0 (fgets 1023 file).0 * copies) h
