-- ===== src/Calculator.antt =====
-- Assignment_3: the system calls sys_basic_add.c, sys_basic_sub.c, sys_basic_mul.c and sys_basic_mod.c,
-- and syscall_operation.c, which calls them for what is typed. `put_user` is the kernel's, and a
-- parameter.
pub mod Word
pub mod Answers
mod Tests
use ssu_operating_system.Base.{
  Bool, true, false, Option, none, some, List, [], ◌∷◌, ◌>>=◌, ◌==◌, if◌then◌else◌, ℕ,
}
use ssu_operating_system.Base.Int.{ℤ, pos}
use ssu_operating_system.Calculator.Word.{to_int, add, subtract, multiply, remainder}

-- The messages of `printk`.
pub data Log : Type 0 where
  failed success : Log

pub data Op : Type 0 where
  plus minus times modulo : Op

-- `val` of each of the four calls; `none` is a division that the processor refuses.
pub val : Op → ℤ → ℤ → Option ℤ
unfolding to_int add subtract multiply remainder
val plus num1 num2 = some (to_int (add num1 num2))
val minus num1 num2 = some (to_int (subtract num1 num2))
val times num1 num2 = some (to_int (multiply num1 num2))
val modulo num1 num2 = remainder num1 num2

-- A line that is typed: what the first `scanf` makes of it.
pub data Typed : Type 0 where
  entry : ℤ → ℕ → ℤ → Typed
  malformed : Typed

-- What is printed for it.
pub data Shown : Type 0 where
  wrong_input wrong_op : Shown
  result : ℤ → ℕ → ℤ → ℤ → Shown

-- `switch (op)`.
pub op_of : ℕ → Option Op
op_of c =
    if c == b'+'
    then some plus
    else if c == b'-'
    then some minus
    else if c == b'*'
    then some times
    else if c == b'%'
    then some modulo
    else none

-- The memory of the program. `put_user v m` stores at the address that `result` has, and says whether
-- it could; `load m` is `*result`, if it can be read.
module _ (Mem : Type 0) (put_user : ℤ → Mem → Bool × Mem) (load : Mem → Option ℤ) where
  -- The call: what it returns, which is 0 in either case, what it logs, and the memory.
  pub sys_basic : Op → ℤ → ℤ → Mem → Option (ℤ × Log × Mem)
  sys_basic op num1 num2 m = do
    v ← val op num1 num2
    let (done, m') = put_user v m in some (pos 0, if done then success else failed, m')

  -- The loop of main, over the lines that have been typed so far. It only ends with the program, which
  -- at the end of the input looks for ever for a newline. `check` is not looked at.
  pub calculate : Mem → List Typed → Option (List Shown)
  unfolding sys_basic
  calculate m [] = some []
  calculate m (malformed ∷ lines) = do shown ← calculate m lines; some (wrong_input ∷ shown)
  calculate m (entry num1 c num2 ∷ lines) = elim (op_of c) [
    | none ↦ do shown ← calculate m lines; some (wrong_op ∷ shown)
    | some op ↦ do
      (check, log, m') ← sys_basic op num1 num2 m
      v ← load m'
      shown ← calculate m' lines
      some (result num1 c num2 v ∷ shown)
  ]
