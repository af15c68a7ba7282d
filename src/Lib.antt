-- ===== src/Lib.antt =====
-- Models of the C programs of this repository, one part for each program, and what makes them
-- correct.
--
-- Assignment_5/simulator.c (Pager) replaces pages by OPT, FIFO, LRU or Second-Chance. `Memory` is
-- the arrays and counters of one run, `opt_step`, `fifo_step`, `lru_step` and `chance_step` are the
-- bodies of the four loops, `run` is one round of `while (1)`. Pager/Frames is about the frames as
-- a set, Pager/Invariant about what holds between two references, Pager/Run about whole runs;
-- Pager/Opt, Pager/Lru, Pager/Fifo and Pager/Chance say what each method replaces. Pager/Fifo/Queue
-- has a queue of pages, and Pager/Chance/Clock a clock, as independent descriptions;
-- Pager/Chance/Bits is about the reference bits.
--
-- Assignment_6/program.c (Crossroad) has a thread for the vehicles of each of four start points and
-- a thread that manages them. `System` is the shared variables and where each thread stands, `job`
-- a round of job1, …, job4, `manager_step` what job0 does between two waits, and `Step` a step of
-- any thread, in any order. Crossroad/Invariant says who is on the crossroad and whose turn it is,
-- Crossroad/Order that every step keeps this, Crossroad/Safety what follows, Crossroad/Waiting and
-- Crossroad/Arrivals what happens to the lists, Crossroad/Called whom job0 signals, Crossroad/Count
-- how many vehicles of a point there are, Crossroad/Passed how long the list of those passed is,
-- Crossroad/Ended and Crossroad/Finish how the threads end, and Crossroad/Measure and
-- Crossroad/Ending that they take a bounded number of steps. Crossroad/Prompt has the runs in which
-- no signal is lost, `PromptStep`: Vehicle, Settle, Arrival, Dispatch and Heard are about the
-- single steps, Round about a round of job0, Progress and Complete about whole runs. Every thread
-- starts at its first wait, as the `sleep(1)` of `create_thread` allows for, and a wait ends by a
-- signal only.
--
-- Assignment_2/myps.c (Ps): Ps/Options is the options and their parse in `main`, Ps/Select is
-- GetTTY and SearchProcess, Ps/Table is PrintPS, Ps/Record is AddProcessList, with Ps/Record/Stat
-- and Ps/Record/Line about what it makes of the lines of the kernel. `main` calls SearchProcess,
-- which fills the table by AddProcessList, and then PrintPS.
--
-- Assignment_2/mytop.c (Top): Top/Bubble and Top/Sort are SortProc and isGreater, Top/Columns is
-- the choice of the columns in PrintTOP, Top/Screen what it prints in them, Top/Summary the lines
-- above, Top/Keys is the loop of `main` with its keys, its period and its signals, Top/Keys/Periods
-- the options -n and -d over whole runs of the loop. Top/Record is AddProcessList and SearchProcess
-- with `cpuTimeTable`, Top/Record/Interval what the table is good for. Top/Columns/Placed,
-- Top/Columns/Command, Top/Screen/Widths, Top/Screen/Apart, Top/Screen/Narrow, Top/Summary/Ticks,
-- Top/Summary/Interval and Top/Summary/Balance are about what is printed.
--
-- Proc has what myps.c and mytop.c read of a process, which is written out in both of them:
-- Proc/Token and Proc/Number the tokens of /proc/pid/stat, Proc/Status the rows of
-- /proc/pid/status, Proc/Command the arguments, Proc/State, Proc/Times and Proc/Percent the columns
-- made from them, with RoundDouble, and Proc/Host what is read of the machine and its users.
--
-- Assignment_2/mylscpu.c (Lscpu): Lscpu/Cpu is ReadCpuInfo, Lscpu/System is ReadFileSystemCPU,
-- ReadFileSystemNode and ReadFileSystemVul, and Lscpu/Terminal is PrintTerminal.
--
-- Assignment_3 (Calculator): `sys_basic` is the four system calls, `calculate` the loop of
-- syscall_operation.c, Calculator/Word the `int` of the kernel, and Calculator/Answers what is
-- printed.
--
-- Input is `fgets` and the loops that go on to a row, of all the programs of Assignment_2. Base has
-- what these share: Base/Lists is arrays as lists, Base/Text is texts as lists of bytes with what
-- the programs use of printf and string.h, Base/Int is the integers, Base/Tests the Boolean tests.
--
-- Conventions. `none` is what C leaves undefined (an access out of an array, a division by 0) or,
-- where a comment says so, the end of the program by an error. What comes from outside, such as the
-- files of /proc and /sys, the entries of a directory, keys and times, is an argument. A page
-- number, a process number to be signalled and a width are integers; sizes and counters are natural
-- numbers, and where the code wraps round, the remainder by 2 ^ 32 or 2 ^ 64 is written out. CPU
-- and memory percentages, which RoundDouble leaves with one digit, are numbers of tenths.
--
-- Fuel. `reads` takes a round for each byte of the file at most, and each round reads a byte at
-- least. `decimal` takes a round for each digit at most. `rows_from` takes a round for each byte of
-- the text at most. All other loops are structural.
--
-- A `long double` is a fraction, so that its rounding by the hardware is left out. `put_user` of
-- the kernel, `strftime` and the entries of /proc are parameters.
--
-- Not modelled: the users and the load in the first line of mytop.c, the digits of the fractions in
-- its third to fifth, EraseProcess and EraseProcessList of myps.c and mytop.c, which clear a record
-- and a count, the layout of the tables of simulator.c, PrintLSCPU (calls of printf), random
-- numbers and sleep in program.c, and what the calculator does at the end of its input, where it
-- waits for ever. The Makefile, syscalls.h and syscall_64.tbl of Assignment_3, and core.c, sched.h
-- and stats.h of Assignment_4, are copies of Linux; cfs.c and cfs_nice.c of Assignment_4 only fork
-- children to be timed by the kernel.
pub mod Base
pub mod Input
pub mod Proc
pub mod Pager
pub mod Crossroad
pub mod Ps
pub mod Top
pub mod Lscpu
pub mod Calculator
