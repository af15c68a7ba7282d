-- ===== src/Proc/Status.antt =====
-- The rows of /proc/pid/status that Assignment_2/myps.c and mytop.c read.
use ssu_operating_system.Base.{ℕ, ◌≡◌, refl, Bool, true, false, List, [], ◌∷◌, if◌then◌else◌, arith}
use ssu_operating_system.Base.Text.{Text, codes, is_digit, starts_with}
use ssu_operating_system.Input.{reads, read_to, read_to_lem, IsAt, nth, number}

-- `ptr` at the first digit, or at the start.
unfoldable pub at_digit : Text → Text → Text
at_digit buf [] = buf
at_digit buf (c ∷ cs) = if is_digit c then c ∷ cs else at_digit buf cs

abbrev pub row_value : Text → ℕ
row_value buf = number 0 (at_digit buf buf)

-- What is read of the memory; `has` is that the file has the rows of memory.
pub record MemoryRows : Type 0 where
  pub has : Bool
  pub vsz : ℕ
  pub vm_lck : ℕ
  pub rss : ℕ
  pub shr : ℕ

abbrev pub no_memory : MemoryRows
no_memory = record { has = false; vsz = 0; vm_lck = 0; rss = 0; shr = 0 }

-- Row 18 is compared with VmSize up to its length; then rows 19, 22 and 24.
pub read_status : Text → MemoryRows
unfolding at_digit
read_status file =
    let c18 = read_to 18 (record { cnt = 0; buf = []; rest = reads file }) in
    if starts_with c18.buf (codes "VmSize")
    then (let c19 = read_to 19 c18 in
        let c22 = read_to 22 c19 in
        let c24 = read_to 24 c22 in
        record {
          has = true;
          vsz = row_value c18.buf;
          vm_lck = row_value c19.buf;
          rss = row_value c22.buf;
          shr = row_value c24.buf;
        })
    else no_memory

-- What should be read: each value from the row of its number, as counted by `fgets`.
abbrev pub memory_of : List Text → MemoryRows
memory_of rows =
    if starts_with (nth rows 17) (codes "VmSize")
    then record {
      has = true;
      vsz = row_value (nth rows 17);
      vm_lck = row_value (nth rows 18);
      rss = row_value (nth rows 21);
      shr = row_value (nth rows 23);
    }
    else no_memory

-- Each value of the memory is read from its own row, and all are 0 where row 18 is not VmSize.
pub read_status-memory_of : (file : Text) → read_status file ≡ memory_of (reads file)
unfolding read_status
read_status-memory_of file =
    let ts = reads file in
    let start : IsAt ts 0 (record { cnt = 0; buf = []; rest = ts }) = record {
      at = refl;
      behind = refl;
    } in
    let (a18, b18) = read_to_lem ts 0 17 _ start (omega arith) in
    let (a19, b19) = read_to_lem ts 18 18 _ a18 (omega arith) in
    let (a22, b22) = read_to_lem ts 19 21 _ a19 (omega arith) in
    let (a24, b24) = read_to_lem ts 22 23 _ a22 (omega arith) in simp (b24, b22, b19, b18) refl
