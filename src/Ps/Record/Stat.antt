-- ===== src/Ps/Record/Stat.antt =====
-- The line of /proc/pid/stat as the kernel writes it, and the numbers that Assignment_2/myps.c reads
-- from it.
use ssu_operating_system.Base.{
  ℕ, ◌^◌, ◌<◌, ◌≡◌, refl, true, some, List, [], ◌∷◌, ◌++◌, length, All, arith,
}
use ssu_operating_system.Base.Int.{ℤ, pos}
use ssu_operating_system.Base.Text.{Text, codes}
use ssu_operating_system.Proc.Token.{IsToken, no_space, to_ulong}
use ssu_operating_system.Proc.Number.{integer, IsInt, integer-IsToken, atoi-integer, name-IsToken}
use ssu_operating_system.Proc.State.{IsPlain}
use ssu_operating_system.Ps.Record.{Numbers, numbers}

-- The fields of /proc/pid/stat; `unread` are those that are not read, by their place.
pub record Stat : Type 0 where
  pub pid : ℕ
  pub name : Text
  pub letter : ℕ
  pub ppid : ℕ
  pub sid : ℤ
  pub tpgid : ℤ
  pub utime : ℕ
  pub stime : ℕ
  pub priority : ℤ
  pub nice : ℤ
  pub threads : ℤ
  pub start_ticks : ℕ
  pub unread : ℕ → Text

abbrev pub stat_tokens : Stat → List Text
stat_tokens s =
    integer (pos s.pid)
    ∷ (b'(' ∷ (s.name ++ codes ")"))
    ∷ (s.letter ∷ [])
    ∷ integer (pos s.ppid)
    ∷ s.unread 4
    ∷ integer s.sid
    ∷ s.unread 6
    ∷ integer s.tpgid
    ∷ s.unread 8
    ∷ s.unread 9
    ∷ s.unread 10
    ∷ s.unread 11
    ∷ s.unread 12
    ∷ integer (pos s.utime)
    ∷ integer (pos s.stime)
    ∷ s.unread 15
    ∷ s.unread 16
    ∷ integer s.priority
    ∷ integer s.nice
    ∷ integer s.threads
    ∷ s.unread 20
    ∷ integer (pos s.start_ticks)
    ∷ []

-- The numbers fit an int, and no field has white space in it.
pub record IsLine (s : Stat) : Type 0 where
  pub pid : s.pid < 2 ^ 31
  pub name : no_space s.name ≡ true
  pub name_short : length s.name < 30
  pub letter : no_space (s.letter ∷ []) ≡ true
  pub plain : IsPlain s.letter
  pub ppid : s.ppid < 2 ^ 31
  pub sid : IsInt s.sid
  pub tpgid : IsInt s.tpgid
  pub utime : s.utime < 2 ^ 31
  pub stime : s.stime < 2 ^ 31
  pub priority : IsInt s.priority
  pub nice : IsInt s.nice
  pub threads : IsInt s.threads
  pub start_ticks : s.start_ticks < 2 ^ 31
  pub unread : (i : ℕ) → IsToken (s.unread i)

pub IsLine-tokens : (s : Stat) → IsLine s → All IsToken (stat_tokens s)
IsLine-tokens s h = (
  integer-IsToken (pos s.pid) h.pid,
  (
    name-IsToken s.name h.name h.name_short,
    (
      (omega arith, h.letter, omega arith),
      (
        integer-IsToken (pos s.ppid) h.ppid,
        (
          h.unread 4,
          (
            integer-IsToken s.sid h.sid,
            (
              h.unread 6,
              (
                integer-IsToken s.tpgid h.tpgid,
                (
                  h.unread 8,
                  (
                    h.unread 9,
                    (
                      h.unread 10,
                      (
                        h.unread 11,
                        (
                          h.unread 12,
                          (
                            integer-IsToken (pos s.utime) h.utime,
                            (
                              integer-IsToken (pos s.stime) h.stime,
                              (
                                h.unread 15,
                                (
                                  h.unread 16,
                                  (
                                    integer-IsToken s.priority h.priority,
                                    (
                                      integer-IsToken s.nice h.nice,
                                      (
                                        integer-IsToken s.threads h.threads,
                                        (
                                          h.unread 20,
                                          (integer-IsToken (pos s.start_ticks) h.start_ticks, tt),
                                        ),
                                      ),
                                    ),
                                  ),
                                ),
                              ),
                            ),
                          ),
                        ),
                      ),
                    ),
                  ),
                ),
              ),
            ),
          ),
        ),
      ),
    ),
  ),
)

abbrev pub numbers_of : Stat → Numbers
numbers_of s = record {
  pid = s.pid;
  ppid = s.ppid;
  utime = s.utime;
  stime = s.stime;
  start_ticks = s.start_ticks;
  priority = s.priority;
  nice = s.nice;
  sid = s.sid;
  threads = s.threads;
  tpgid = s.tpgid;
}

-- Each number is read from its own place.
pub numbers-stat_tokens : (s : Stat) → IsLine s → numbers (stat_tokens s) ≡ some (numbers_of s)
unfolding numbers to_ulong
numbers-stat_tokens s h =
    rw
      (
        atoi-integer (pos s.pid) h.pid,
        atoi-integer (pos s.ppid) h.ppid,
        atoi-integer (pos s.utime) h.utime,
        atoi-integer (pos s.stime) h.stime,
        atoi-integer (pos s.start_ticks) h.start_ticks,
        atoi-integer s.priority h.priority,
        atoi-integer s.nice h.nice,
        atoi-integer s.sid h.sid,
        atoi-integer s.threads h.threads,
        atoi-integer s.tpgid h.tpgid,
      )
      refl
