-- ===== src/Input.antt =====
-- `fgets` into the buffers of Assignment_2 (mylscpu.c, myps.c, mytop.c), and the loops that go on to a row of a file.
use Prim.Native.Nat.add
use native.Mathlib.Nat.{zero-add}
use ssu_operating_system.Base.{
  ℕ, zero, suc, ◌+◌, ◌-◌, ◌≤◌, ◌≡◌, refl, List, [], ◌∷◌, if◌then◌else◌, length, arith, ◌*◌, ◌==◌,
  get_or, drop, ap, ◌∙◌,
}
use ssu_operating_system.Base.Text.{Text, is_digit}

-- `fgets` with room for so many bytes: what it stores, up to and with a newline, and what is left.
unfoldable pub fgets : ℕ → Text → Text × Text
fgets zero file = ([], file)
fgets (suc room) [] = ([], [])
fgets (suc room) (c ∷ file) =
    let rest = fgets room file in if c == b'\n' then (c ∷ [], file) else (c ∷ rest.0, rest.1)

-- The file as the texts that one `fgets` after another stores in a buffer of 1024 bytes, with a
-- round for each byte at most.
unfoldable pub reads_from : ℕ → Text → List Text
unfolding fgets
reads_from zero file = []
reads_from (suc fuel) [] = []
reads_from (suc fuel) (c ∷ file) = let got = fgets 1023 (c ∷ file) in got.0 ∷ reads_from fuel got.1

unfoldable pub reads : Text → List Text
unfolding reads_from
reads file = reads_from (length file) file

-- A place in a file: `cnt`, `buf`, and what the next calls of `fgets` will store.
pub record Cursor : Type 0 where
  pub cnt : ℕ
  pub buf : Text
  pub rest : List Text

-- `memset(buf, '\0', BUFFER_SIZE); fgets(buf, …); cnt++;`, with nothing stored at the end.
unfoldable pub advance : ℕ → List Text → Cursor
advance cnt [] = record { cnt = cnt + 1; buf = []; rest = [] }
advance cnt (line ∷ rest) = record { cnt = cnt + 1; buf = line; rest = rest }

-- `while (cnt < row)`, with so many rounds left.
unfoldable pub read_rows : ℕ → Cursor → Cursor
unfolding advance
read_rows zero c = c
read_rows (suc n) c = read_rows n (advance c.cnt c.rest)

unfoldable pub read_to : ℕ → Cursor → Cursor
unfolding read_rows
read_to row c = read_rows (row - c.cnt) c

-- `ptr = buf + i + 2` at the first colon, or `buf`.
unfoldable pub after_colon : Text → Text → Text
after_colon buf [] = buf
after_colon buf (c ∷ cs) = if c == b':' then drop 1 cs else after_colon buf cs

-- The digits in front, as `%lu` and `atoi` read them.
unfoldable pub number : ℕ → Text → ℕ
number acc [] = acc
number acc (c ∷ cs) = if is_digit c then number (acc * 10 + (c - b'0')) cs else acc

-- The n-th text from here on, or nothing past the end.
abbrev pub nth : List Text → ℕ → Text
nth ts n = get_or ts n []

drop-nil : (n : ℕ) → drop {A = Text} n [] ≡ []
drop-nil zero = refl
drop-nil (suc n) = refl

nth-drop : (k n : ℕ) (ts : List Text) → nth (drop k ts) n ≡ nth ts (k + n)
nth-drop zero n ts = rw zero-add
nth-drop (suc k) n [] = refl
nth-drop (suc k) n (t ∷ ts) = rw add.suc (nth-drop k n ts)

drop-drop : (k n : ℕ) (ts : List Text) → drop n (drop k ts) ≡ drop (k + n) ts
drop-drop zero n ts = rw zero-add
drop-drop (suc k) n [] = rw add.suc (drop-nil n)
drop-drop (suc k) n (t ∷ ts) = rw add.suc (drop-drop k n ts)

read_rows-buf :
    (n cnt : ℕ) (buf : Text) (ts : List Text)
    → (read_rows (suc n) (record { cnt = cnt; buf = buf; rest = ts })).buf ≡ nth ts n
unfolding read_rows
read_rows-buf zero cnt buf [] = refl
read_rows-buf zero cnt buf (t ∷ ts) = refl
read_rows-buf (suc n) cnt buf [] = read_rows-buf n (cnt + 1) [] []
read_rows-buf (suc n) cnt buf (t ∷ ts) = read_rows-buf n (cnt + 1) t ts

read_rows-rest :
    (n cnt : ℕ) (buf : Text) (ts : List Text)
    → let c = read_rows n (record { cnt = cnt; buf = buf; rest = ts }) in
      (c.rest ≡ drop n ts) × (c.cnt ≡ cnt + n)
unfolding read_rows
read_rows-rest zero cnt buf ts = (refl, omega arith)
read_rows-rest (suc n) cnt buf [] =
    let (r, k) = read_rows-rest n (cnt + 1) [] [] in (r ∙ drop-nil n, omega (arith, k))
read_rows-rest (suc n) cnt buf (t ∷ ts) =
    let (r, k) = read_rows-rest n (cnt + 1) t ts in (r, omega (arith, k))

-- The place after `row` texts of those in `ts`.
pub record IsAt (ts : List Text) (row : ℕ) (c : Cursor) : Type 0 where
  pub at : c.cnt ≡ row
  pub behind : c.rest ≡ drop row ts

-- Going on to a later row leaves the text of that row in `buf`: the n-th that `fgets` stores, or
-- nothing if the file ends before.
pub read_to_lem :
    (ts : List Text) (row n : ℕ) (c : Cursor)
    → IsAt ts row c
    → row ≤ n
    → IsAt ts (n + 1) (read_to (n + 1) c) × ((read_to (n + 1) c).buf ≡ nth ts n)
unfolding read_to
read_to_lem ts row n c v h =
    let steps : n + 1 - c.cnt ≡ suc (n - row) = omega (arith, v.at) in
    let here : row + (n - row) ≡ n = omega arith in
    let after = read_rows-rest (suc (n - row)) c.cnt c.buf c.rest in
    (
      record {
        at = rw steps (omega (arith, after.1, v.at));
        behind = rw steps (
            after.0
            ∙ rw (v.behind, drop-drop row (suc (n - row)) ts) (ap (λ k. drop k ts) (omega arith)));
      },
      rw steps (
          read_rows-buf (n - row) c.cnt c.buf c.rest
          ∙ rw (v.behind, nth-drop row (n - row) ts, here)),
    )
