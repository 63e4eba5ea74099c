-- ===== src/Pm/CallNr.antt =====
-- The calls of the process manager in minix/callnr.h (new/usr/src/minix/include).
use clipboard.Prelude.{ℕ, ◌+◌}

abbrev pub pm_base : ℕ
pm_base = 0

abbrev pub pm_exit : ℕ
pm_exit = pm_base + 1

abbrev pub pm_fork : ℕ
pm_fork = pm_base + 2

abbrev pub pm_waitpid : ℕ
pm_waitpid = pm_base + 3

abbrev pub pm_getpid : ℕ
pm_getpid = pm_base + 4

abbrev pub pm_setuid : ℕ
pm_setuid = pm_base + 5

abbrev pub pm_getuid : ℕ
pm_getuid = pm_base + 6

abbrev pub pm_stime : ℕ
pm_stime = pm_base + 7

abbrev pub pm_ptrace : ℕ
pm_ptrace = pm_base + 8

abbrev pub pm_setgroups : ℕ
pm_setgroups = pm_base + 9

abbrev pub pm_getgroups : ℕ
pm_getgroups = pm_base + 10

abbrev pub pm_kill : ℕ
pm_kill = pm_base + 11

abbrev pub pm_setgid : ℕ
pm_setgid = pm_base + 12

abbrev pub pm_getgid : ℕ
pm_getgid = pm_base + 13

abbrev pub pm_exec : ℕ
pm_exec = pm_base + 14

abbrev pub pm_setsid : ℕ
pm_setsid = pm_base + 15

abbrev pub pm_getpgrp : ℕ
pm_getpgrp = pm_base + 16

abbrev pub pm_itimer : ℕ
pm_itimer = pm_base + 17

abbrev pub pm_getmcontext : ℕ
pm_getmcontext = pm_base + 18

abbrev pub pm_setmcontext : ℕ
pm_setmcontext = pm_base + 19

abbrev pub pm_sigaction : ℕ
pm_sigaction = pm_base + 20

abbrev pub pm_sigsuspend : ℕ
pm_sigsuspend = pm_base + 21

abbrev pub pm_sigpending : ℕ
pm_sigpending = pm_base + 22

abbrev pub pm_sigprocmask : ℕ
pm_sigprocmask = pm_base + 23

abbrev pub pm_sigreturn : ℕ
pm_sigreturn = pm_base + 24

abbrev pub pm_sysuname : ℕ
pm_sysuname = pm_base + 25

abbrev pub pm_getpriority : ℕ
pm_getpriority = pm_base + 26

abbrev pub pm_setpriority : ℕ
pm_setpriority = pm_base + 27

abbrev pub pm_gettimeofday : ℕ
pm_gettimeofday = pm_base + 28

abbrev pub pm_seteuid : ℕ
pm_seteuid = pm_base + 29

abbrev pub pm_setegid : ℕ
pm_setegid = pm_base + 30

abbrev pub pm_issetugid : ℕ
pm_issetugid = pm_base + 31

abbrev pub pm_getsid : ℕ
pm_getsid = pm_base + 32

abbrev pub pm_clock_getres : ℕ
pm_clock_getres = pm_base + 33

abbrev pub pm_clock_gettime : ℕ
pm_clock_gettime = pm_base + 34

abbrev pub pm_clock_settime : ℕ
pm_clock_settime = pm_base + 35

abbrev pub pm_getrusage : ℕ
pm_getrusage = pm_base + 36

abbrev pub pm_reboot : ℕ
pm_reboot = pm_base + 37

abbrev pub pm_svrctl : ℕ
pm_svrctl = pm_base + 38

abbrev pub pm_sprof : ℕ
pm_sprof = pm_base + 39

abbrev pub pm_cprof : ℕ
pm_cprof = pm_base + 40

abbrev pub pm_srv_fork : ℕ
pm_srv_fork = pm_base + 41

abbrev pub pm_srv_kill : ℕ
pm_srv_kill = pm_base + 42

abbrev pub pm_exec_new : ℕ
pm_exec_new = pm_base + 43

abbrev pub pm_exec_restart : ℕ
pm_exec_restart = pm_base + 44

abbrev pub pm_getepinfo : ℕ
pm_getepinfo = pm_base + 45

abbrev pub pm_getprocnr : ℕ
pm_getprocnr = pm_base + 46

abbrev pub pm_getsysinfo : ℕ
pm_getsysinfo = pm_base + 47

abbrev pub pm_checkancestor : ℕ
pm_checkancestor = pm_base + 48

-- The highest number from the base plus one.
abbrev pub nr_pm_calls : ℕ
nr_pm_calls = 49
