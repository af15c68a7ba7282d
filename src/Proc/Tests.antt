-- ===== src/Proc/Tests.antt =====
-- Concrete runs of what Assignment_2/myps.c and mytop.c read of a process.
use ssu_operating_system.Base.{
  ℕ, ◌≤◌, ◌<◌, ◌≡◌, refl, true, false, some, [], ◌∷◌, ◌++◌, arith, length,
}
use ssu_operating_system.Base.Int.{pos, negsuc}
use ssu_operating_system.Base.Text.{Text, codes, skip, word, after_word, decimal}
use ssu_operating_system.Input.{number}
use ssu_operating_system.Proc.Token.{tokens, atoi, to_ulong}
use ssu_operating_system.Proc.Percent.{percent, percent-nearest}
use ssu_operating_system.Proc.State.{state, has, state-has}
use ssu_operating_system.Proc.Times.{
  two_digits, time_text, StartFormat, clock, day, year, start_text, start_text-by_age, read_time,
  time_text-read_time,
}
use ssu_operating_system.Proc.Command.{command, cmdline_of, command-joined}

-- A name with a blank in it is two tokens, and those behind it are one place too far.
shifted_tokens :
    tokens 4 (codes "1 (Web Content) S 2 3")
    ≡ some (codes "1" ∷ codes "(Web" ∷ codes "Content)" ∷ codes "S" ∷ [])
unfolding tokens skip word after_word
shifted_tokens = refl

atoi_signs : (atoi (codes "-5") ≡ some (negsuc 4)) × (atoi (codes "+7x") ≡ some (pos 7))
unfolding atoi number
atoi_signs = (refl, refl)

-- More than the whole, as two threads use it, is shown as nothing.
percent_busy : percent 15 10 ≡ 0
unfolding percent
percent_busy = refl

percent-nearest_example : (percent 2 3 ≡ 667) × (percent 2 3 ≤ 1000)
percent-nearest_example = percent-nearest 2 3

state_text : state (codes "S") (pos 0) 0 (pos 1234) 1234 (pos 1) (pos 1300) ≡ codes "Ss+"
unfolding state to_ulong
state_text = refl

state-has_example :
    let text = state (codes "S") (negsuc 9) 0 (pos 12) 1234 (pos 4) (negsuc 0) in
    (has b'<' text ≡ true)
    × (has b'N' text ≡ false)
    × (has b'L' text ≡ false)
    × (has b's' text ≡ false)
    × (has b'l' text ≡ true)
    × (has b'+' text ≡ false)
    × (length text < 8)
unfolding to_ulong
state-has_example = state-has b'S' (negsuc 9) 0 (pos 12) 1234 (pos 4) (negsuc 0) refl

-- A day and an hour of the processor.
time_of_long : (time_text true 90_061 ≡ codes "01:01:01") × (time_text false 90_061 ≡ codes "1:01")
unfolding time_text two_digits decimal
time_of_long = (refl, refl)

time_text-read_time_example :
    (read_time 0 0 (time_text true 90_061) ≡ 3661) × (read_time 0 0 (time_text false 90_061) ≡ 61)
time_text-read_time_example = time_text-read_time 90_061

abbrev formats : StartFormat → ℕ → Text
formats clock start = codes "13:00"
formats day start = codes "Nov 26"
formats year start = codes "26"

-- Started 2 seconds later than /proc/uptime was read.
start_text-by_age_example : start_text formats 1_000_000 5_000 500_200 100 ≡ codes "26"
start_text-by_age_example =
    start_text-by_age formats 1_000_000 5_000 500_200 100 (omega arith) (omega arith) (omega arith)

-- The first argument is empty, and so is the third.
command-joined_example :
    (command (cmdline_of ([] ∷ codes "-l" ∷ [])) (codes "ls") ≡ codes " -l")
    × (command (cmdline_of ([] ∷ codes "-l" ∷ []) ++ (0 ∷ codes "x")) (codes "ls") ≡ codes " -l")
    × (command [] (codes "ls") ≡ codes "[ls]")
    × (command (0 ∷ []) (codes "ls") ≡ codes "[ls]")
command-joined_example =
    command-joined [] (codes "-l" ∷ []) (codes "ls") (codes "x") refl ((omega arith, refl), tt)
      (omega arith)
