-- ===== src/Ps/Options.antt =====
-- The options of Assignment_2/myps.c and their parse in `main`.
use ssu_operating_system.Base.{
  ◌^◌, ◌+◌, ◌<◌, ◌≤◌, ltb, length, length-append, All, ℕ, ◌≡◌, refl, Bool, true, false, ◌&&◌, ◌||◌,
  not, Option, none, some, List, [], ◌∷◌, ◌++◌, arith, if◌then◌else◌, ◌==◌, inl, inr, ◌⊎◌, ◌↔◌,
  subst, map, ap, ◌∙◌,
}
use mathlib.Core.List.{append-nil, append_assoc}
use ssu_operating_system.Base.Text.{
  Text, all_digits, value, is_digit, decimal, decimal-all_digits, value-decimal,
}

pub record Options : Type 0 where
  pub a : Bool
  pub e : Bool
  pub f : Bool
  pub h : Bool
  pub p : Bool
  pub u : Bool
  pub x : Bool
  pub pid_list : List ℕ

abbrev pub no_options : Options
no_options = record {
  a = false;
  e = false;
  f = false;
  h = false;
  p = false;
  u = false;
  x = false;
  pid_list = [];
}

-- One character of an argument.
unfoldable pub letter : Options → ℕ → Options
letter o c =
    if c == b'a'
    then record o { a = true }
    else if c == b'e'
    then record o { e = true; a = true; x = true }
    else if c == b'f'
    then record o { f = true }
    else if c == b'h'
    then record o { h = true }
    else if c == b'p'
    then record o { p = true; a = true; x = true }
    else if c == b'u'
    then record o { u = true }
    else if c == b'x'
    then record o { x = true }
    else o

unfoldable pub letters : Options → Text → Options
unfolding letter
letters o [] = o
letters o (c ∷ cs) = letters (letter o c) cs

-- How `main` can leave its loop early: by `ErrorFunc`, or by what C leaves undefined, a number that
-- `atoi` cannot give as an `int` or one more than the 32768 entries of `pidList`.
pub data Parsed : Type 0 where
  ok : Options → Parsed
  syntax_error undefined : Parsed

abbrev then_parse : Parsed → (Options → Parsed) → Parsed
then_parse (ok o) f = f o
then_parse syntax_error f = syntax_error
then_parse undefined f = undefined

-- `pidList[pidListIdx++] = atoi(argv[i])`, of digits.
abbrev pub add_pid : Options → ℕ → Parsed
add_pid o n =
    if ltb n (2 ^ 31) && ltb (length o.pid_list) 32_768
    then ok (record o { pid_list = o.pid_list ++ (n ∷ []) })
    else undefined

-- With `p` set an argument must be a number, which is put at the end of `pidList`.
pid_argument : Options → Text → Parsed
pid_argument o arg =
    if o.p then (if all_digits arg then add_pid o (value 0 arg) else syntax_error) else ok o

argument : Options → Text → Parsed
unfolding pid_argument letters
argument o arg = then_parse (pid_argument o arg) (λ o'. ok (letters o' arg))

-- The loop over `argv[1]`, …
pub parse : Options → List Text → Parsed
unfolding argument
parse o [] = ok o
parse o (arg ∷ args) = then_parse (argument o arg) (λ o'. parse o' args)

-- `e` and `p` come with `a` and `x`, and only `p` fills the list.
record IsConsistent (o : Options) : Type 0 where
  e_all : (not o.e || (o.a && o.x)) ≡ true
  p_all : (not o.p || (o.a && o.x)) ≡ true
  pub listed : (o.p ≡ true) ⊎ (o.pid_list ≡ [])

letter-IsConsistent : (o : Options) (c : ℕ) → IsConsistent o → IsConsistent (letter o c)
unfolding letter
letter-IsConsistent o c v = ground arith

letters-IsConsistent : (o : Options) (cs : Text) → IsConsistent o → IsConsistent (letters o cs)
unfolding letters
letters-IsConsistent o [] v = v
letters-IsConsistent o (c ∷ cs) v = letters-IsConsistent (letter o c) cs (letter-IsConsistent o c v)

ok_eq : {a b : Options} → ok a ≡ ok b → a ≡ b
ok_eq e = cc

then_parse-ok :
    (r : Parsed) (f : Options → Parsed) {o' : Options}
    → then_parse r f ≡ ok o'
    → (o : Options) × (r ≡ ok o) × (f o ≡ ok o')
then_parse-ok (ok o) f e = (o, refl, e)
then_parse-ok syntax_error f e = cc
then_parse-ok undefined f e = cc

pid_argument-IsConsistent :
    (o o' : Options) (arg : Text) → IsConsistent o → pid_argument o arg ≡ ok o' → IsConsistent o'
unfolding pid_argument
pid_argument-IsConsistent o o' arg v h = ground arith

argument-IsConsistent :
    (o o' : Options) (arg : Text) → IsConsistent o → argument o arg ≡ ok o' → IsConsistent o'
unfolding argument
argument-IsConsistent o o' arg v h =
    let (o'', e, same) = then_parse-ok (pid_argument o arg) _ h in
    subst IsConsistent (ok_eq same)
      (letters-IsConsistent o'' arg (pid_argument-IsConsistent o o'' arg v e))

-- Whatever the arguments, if the loop ends, then `e` and `p` are set only together with `a` and `x`,
-- and the list of process numbers is empty unless `p` is set.
parse-IsConsistent :
    (o o' : Options) (args : List Text) → IsConsistent o → parse o args ≡ ok o' → IsConsistent o'
unfolding parse
parse-IsConsistent o o' [] v h = subst IsConsistent (ok_eq h) v
parse-IsConsistent o o' (arg ∷ args) v h =
    let (o'', e, rest) = then_parse-ok (argument o arg) _ h in
    parse-IsConsistent o'' o' args (argument-IsConsistent o o'' arg v e) rest

letter-digit : (o : Options) (c : ℕ) → is_digit c ≡ true → letter o c ≡ o
unfolding letter
letter-digit o c h = ground arith

letters-all_digits : (o : Options) (cs : Text) → all_digits cs ≡ true → letters o cs ≡ o
unfolding letters
letters-all_digits o [] h = refl
letters-all_digits o (c ∷ cs) h =
    rw (letter-digit o c (ground arith)) (letters-all_digits o cs (ground arith))

argument-number :
    (o : Options) (arg : Text)
    → o.p ≡ true
    → all_digits arg ≡ true
    → value 0 arg < 2 ^ 31
    → length o.pid_list < 32_768
    → argument o arg ≡ ok (record o { pid_list = o.pid_list ++ (value 0 arg ∷ []) })
unfolding argument pid_argument
argument-number o arg h d l r =
    let fits : (ltb (value 0 arg) (2 ^ 31) && ltb (length o.pid_list) 32_768) ≡ true =
      ground (arith, l, r) in
    rw (h, d, fits) (ap ok (letters-all_digits _ arg d))

argument-unfit :
    (o : Options) (arg : Text)
    → o.p ≡ true
    → all_digits arg ≡ true
    → (2 ^ 31 ≤ value 0 arg) ⊎ (32_768 ≤ length o.pid_list)
    → argument o arg ≡ undefined
unfolding argument pid_argument
argument-unfit o arg h d l =
    let unfit : (ltb (value 0 arg) (2 ^ 31) && ltb (length o.pid_list) 32_768) ≡ false =
      ground (arith, l) in
    rw (h, d, unfit) refl

argument-other :
    (o : Options) (arg : Text) → o.p ≡ true → all_digits arg ≡ false → argument o arg ≡ syntax_error
unfolding argument pid_argument
argument-other o arg h d = rw (h, d) refl

argument-decimal :
    (o : Options) (n : ℕ)
    → o.p ≡ true
    → n < 2 ^ 31
    → length o.pid_list < 32_768
    → argument o (decimal n) ≡ ok (record o { pid_list = o.pid_list ++ (n ∷ []) })
argument-decimal o n h l r =
    rw
      (
        argument-number o (decimal n) h (decimal-all_digits n) (rw (value-decimal n) l) r,
        value-decimal n,
      )
      refl

-- With p set, numbers printed in decimal are parsed as those numbers, put after those read before,
-- and nothing else changes. Each fits an int, and pidList has room for all.
pub parse-map-decimal :
    (o : Options) (pids : List ℕ)
    → o.p ≡ true
    → All (λ n. n < 2 ^ 31) pids
    → length o.pid_list + length pids ≤ 32_768
    → parse o (map decimal pids) ≡ ok (record o { pid_list = o.pid_list ++ pids })
unfolding parse
parse-map-decimal o [] h hs r = rw append-nil refl
parse-map-decimal o (n ∷ pids) h (l, hs) r = rw (argument-decimal o n h l (omega (arith, r))) (
    parse-map-decimal (record o { pid_list = o.pid_list ++ (n ∷ []) }) pids h hs
      (omega (arith, r, length-append o.pid_list (n ∷ [])))
    ∙ rw (append_assoc o.pid_list (n ∷ []) pids) refl)

-- The first argument that stops the loop, with so many entries of `pidList` in use: is it one that is
-- no number, rather than one that cannot be stored?
abbrev pub first_stop : ℕ → List Text → Option Bool
first_stop used [] = none
first_stop used (arg ∷ args) =
    let rest = first_stop (used + 1) args in
    if not (all_digits arg)
    then some true
    else if ltb (value 0 arg) (2 ^ 31) && ltb used 32_768
    then rest
    else some false

-- With p set, main ends by its error exactly if some later argument is no number and each one before
-- it is a number that fits an int and has room in pidList.
pub parse-eq-syntax_error :
    (o : Options) (args : List Text)
    → o.p ≡ true
    → (parse o args ≡ syntax_error) ↔ (first_stop (length o.pid_list) args ≡ some true)
unfolding parse
parse-eq-syntax_error o [] h = ground arith
parse-eq-syntax_error o (arg ∷ args) h =
    elim (kinds (all_digits arg) (value 0 arg) (length o.pid_list)) [
      | inl other ↦ rw (argument-other o arg h other, other) (ground arith)
      | inr (inl (number, unfit)) ↦
          let cut : (ltb (value 0 arg) (2 ^ 31) && ltb (length o.pid_list) 32_768) ≡ false =
            ground (arith, unfit) in
          rw (argument-unfit o arg h number unfit, number, cut) (ground arith)
      | inr (inr (number, l, r)) ↦
          let fits : (ltb (value 0 arg) (2 ^ 31) && ltb (length o.pid_list) 32_768) ≡ true =
            ground (arith, l, r) in
          rw (argument-number o arg h number l r, number, fits)
            (rw (← one_more o.pid_list (value 0 arg)) (
              parse-eq-syntax_error (record o { pid_list = o.pid_list ++ (value 0 arg ∷ []) }) args
                h))
    ]
  where
    one_more : (xs : List ℕ) (n : ℕ) → length (xs ++ (n ∷ [])) ≡ length xs + 1
    one_more xs n = length-append xs (n ∷ [])

    kinds :
        (b : Bool) (n used : ℕ)
        → (b ≡ false)
          ⊎ (((b ≡ true) × ((2 ^ 31 ≤ n) ⊎ (32_768 ≤ used)))
              ⊎ ((b ≡ true) × (n < 2 ^ 31) × (used < 32_768)))
    kinds b n used = ground arith
