-- ===== src/Lscpu/Tests.antt =====
-- Concrete runs of the models of Assignment_2/mylscpu.c.
use ssu_operating_system.Base.{
  ℕ, ◌≡◌, refl, true, false, some, [], ◌∷◌, ◌>>=◌, ◌++◌, arith, replicate, get_elem?,
}
use ssu_operating_system.Base.Text.{Text, codes}
use ssu_operating_system.Input.{
  Cursor, fgets, reads, reads_from, read_to, read_rows, advance, number, after_colon, IsAt,
}
use ssu_operating_system.Lscpu.Cpu.{read_cpu_info, divide, values, read_cpu_info-values}
use ssu_operating_system.Lscpu.System.{
  Node, Weakness, read_file_system_vul, read_file_system_vul-line,
}
use ssu_operating_system.Lscpu.Terminal.{print_terminal, print_terminal-rows, in_rows}

-- One processor of four, as the kernel writes it.
abbrev cpuinfo : Text
cpuinfo =
    codes "processor\t: 0\nvendor_id\t: AuthenticAMD\ncpu family\t: 23\n"
    ++ codes "model\t\t: 158\nmodel name\t: AMD Ryzen 5\nstepping\t: 10\n"
    ++ codes "microcode\t: 0xde\ncpu MHz\t\t: 2304.000\ncache size\t: 8192 KB\n"
    ++ codes "physical id\t: 0\nsiblings\t: 4\ncore id\t\t: 0\n"
    ++ codes "cpu cores\t: 2\napicid\t\t: 0\ninitial apicid\t: 0\n"
    ++ codes "fpu\t\t: yes\nfpu_exception\t: yes\ncpuid level\t: 22\n"
    ++ codes "wp\t\t: yes\nflags\t\t: fpu vme\nbugs\t\t: mds\n"
    ++ codes
        "bogomips\t: 4608.00\nTLB size\t: 3072 4K pages\nclflush size\t: 64\ncache_alignment\t: 64\n"
    ++ codes "address sizes\t: 39 bits physical\npower management:\n\n"

abbrev start : Cursor
start = record { cnt = 0; buf = []; rest = reads cpuinfo }

start-IsAt : IsAt (reads cpuinfo) 0 start
start-IsAt = record { at = refl; behind = refl }

-- Two cores with two threads each, and one row "processor" in the file.
read_cpu_info_counts :
    ◌>>=◌ {B = ℕ × Text} (read_cpu_info cpuinfo) (λ i. some (i.threads, i.addrsize))
    ≡ some (2, codes "39 bits physical\n")
unfolding read_cpu_info reads reads_from fgets read_to read_rows advance divide number after_colon
read_cpu_info_counts = refl

read_cpu_info-values_example : read_cpu_info cpuinfo ≡ divide (values cpuinfo)
read_cpu_info-values_example = read_cpu_info-values cpuinfo

abbrev node0 : Node
node0 = record { d_name = codes "node0"; is_dir = some true }

abbrev possible : Node
possible = record { d_name = codes "possible"; is_dir = some false }

abbrev meltdown : Weakness
meltdown = record { d_name = codes "meltdown"; file = some (codes "Mitigation: PTI\n") }

read_file_system_vul-line_example :
    get_elem?
      (read_file_system_vul
        (meltdown ∷ record { d_name = codes "mds"; file = some (codes "Vulnerable\n") } ∷ [])
        (replicate 9 []))
      2
    ≡ some (fgets 1023 (codes "Vulnerable\n")).0
read_file_system_vul-line_example =
    read_file_system_vul-line (meltdown ∷ []) [] (codes "mds") (codes "Vulnerable\n") 2
      (replicate 9 []) refl refl ((λ e. cc), tt) tt

print_terminal-rows_example :
    print_terminal 38 (codes "GenuineIntel\n")
    ≡ some (in_rows 5 (codes "GenuineIntel") ++ codes "\n")
print_terminal-rows_example =
    print_terminal-rows 38 (codes "GenuineIntel") []
      (
        refl,
        (refl, (refl, (refl, (refl, (refl, (refl, (refl, (refl, (refl, (refl, (refl, tt))))))))))),
      )
      (omega arith)
