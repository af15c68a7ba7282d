-- ===== src/Proc/Host.antt =====
-- The first numbers of /proc/uptime and /proc/meminfo, and the name of a user, in Assignment_2/myps.c
-- and mytop.c alike. `none` is `exit(1)` and what C leaves undefined.
use ssu_operating_system.Base.{
  ℕ, ◌<◌, ◌≡◌, Option, none, some, [], ◌∷◌, ltb, if◌then◌else◌, length, arith,
}
use ssu_operating_system.Base.Text.{Text, codes, is_digit, skip, starts_with}
use ssu_operating_system.Input.{fgets, number}

-- `(unsigned long)` of the first number of /proc/uptime, if the file opens; without a number `time` has
-- no value.
get_up_time : Option Text → Option ℕ
get_up_time none = none
get_up_time (some file) = elim (skip (fgets 1023 file).0) [
  | [] ↦ none
  | c ∷ cs ↦ if is_digit c then some (number 0 (c ∷ cs)) else none
]

-- `while (!isdigit(*ptr)) ptr++;`, which goes past the end of a row without a digit.
unfoldable pub to_digit : Text → Option Text
to_digit [] = none
to_digit (c ∷ cs) = if is_digit c then some (c ∷ cs) else to_digit cs

-- The name of the user, or what is shown for one of systemd; a name of 32 bytes has no room.
unfoldable pub user_name : Text → Option Text
user_name name =
    if ltb (length name) 32
    then some (if starts_with name (codes "systemd-") then codes "systemd+" else name)
    else none

pub user_name-fits :
    (user : Text)
    → length user < 32
    → user_name user ≡ some (if starts_with user (codes "systemd-") then codes "systemd+" else user)
unfolding user_name
user_name-fits user h = ground (arith, h)
