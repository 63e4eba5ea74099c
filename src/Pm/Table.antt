-- ===== src/Pm/Table.antt =====
-- table.c of the process manager (new/usr/src/minix/servers/pm), and the table that it replaces
-- (get/usr/src/minix/servers/pm).
pub mod Lookup
use clipboard.Prelude.{ℕ, ◌-◌, ◌==◌, if◌then◌else◌, Option, none, some, List, [], ◌∷◌}
use clipboard.Pm.CallNr.{
  pm_base, pm_exit, pm_fork, pm_waitpid, pm_getpid, pm_setuid, pm_getuid, pm_stime, pm_ptrace,
  pm_setgroups, pm_getgroups, pm_kill, pm_setgid, pm_getgid, pm_exec, pm_setsid, pm_getpgrp,
  pm_itimer, pm_getmcontext, pm_setmcontext, pm_sigaction, pm_sigsuspend, pm_sigpending,
  pm_sigprocmask, pm_sigreturn, pm_sysuname, pm_getpriority, pm_setpriority, pm_gettimeofday,
  pm_seteuid, pm_setegid, pm_issetugid, pm_getsid, pm_clock_getres, pm_clock_gettime,
  pm_clock_settime, pm_getrusage, pm_reboot, pm_svrctl, pm_sprof, pm_cprof, pm_srv_fork,
  pm_srv_kill, pm_exec_new, pm_exec_restart, pm_getepinfo, pm_getprocnr, pm_getsysinfo,
  pm_checkancestor,
}

-- The routines that perform the calls.
pub data Routine : Type 0 where
  do_exit do_fork do_waitpid do_get do_set do_stime do_trace do_kill do_exec do_itimer
        do_getmcontext do_setmcontext do_sigaction do_sigsuspend do_sigpending do_sigprocmask
        do_sigreturn do_sysuname do_getsetpriority do_time do_getres do_gettime do_settime
        do_getrusage do_reboot do_svrctl do_sprofile do_cprofile do_srv_fork do_srv_kill do_newexec
        do_execrestart do_getepinfo do_getprocnr do_getsysinfo do_checkifancestor :
      Routine

-- CALL(n) is the index n - PM_BASE.
abbrev pub call : ℕ → ℕ
call n = n - pm_base

-- The table, as its designated initialisers.
unfoldable pub call_vec : List (ℕ × Routine)
call_vec =
    (call pm_exit, do_exit)
    ∷ (call pm_fork, do_fork)
    ∷ (call pm_waitpid, do_waitpid)
    ∷ (call pm_getpid, do_get)
    ∷ (call pm_setuid, do_set)
    ∷ (call pm_getuid, do_get)
    ∷ (call pm_stime, do_stime)
    ∷ (call pm_ptrace, do_trace)
    ∷ (call pm_setgroups, do_set)
    ∷ (call pm_getgroups, do_get)
    ∷ (call pm_kill, do_kill)
    ∷ (call pm_setgid, do_set)
    ∷ (call pm_getgid, do_get)
    ∷ (call pm_exec, do_exec)
    ∷ (call pm_setsid, do_set)
    ∷ (call pm_getpgrp, do_get)
    ∷ (call pm_itimer, do_itimer)
    ∷ (call pm_getmcontext, do_getmcontext)
    ∷ (call pm_setmcontext, do_setmcontext)
    ∷ (call pm_sigaction, do_sigaction)
    ∷ (call pm_sigsuspend, do_sigsuspend)
    ∷ (call pm_sigpending, do_sigpending)
    ∷ (call pm_sigprocmask, do_sigprocmask)
    ∷ (call pm_sigreturn, do_sigreturn)
    ∷ (call pm_sysuname, do_sysuname)
    ∷ (call pm_getpriority, do_getsetpriority)
    ∷ (call pm_setpriority, do_getsetpriority)
    ∷ (call pm_gettimeofday, do_time)
    ∷ (call pm_seteuid, do_set)
    ∷ (call pm_setegid, do_set)
    ∷ (call pm_issetugid, do_get)
    ∷ (call pm_getsid, do_get)
    ∷ (call pm_clock_getres, do_getres)
    ∷ (call pm_clock_gettime, do_gettime)
    ∷ (call pm_clock_settime, do_settime)
    ∷ (call pm_getrusage, do_getrusage)
    ∷ (call pm_reboot, do_reboot)
    ∷ (call pm_svrctl, do_svrctl)
    ∷ (call pm_sprof, do_sprofile)
    ∷ (call pm_cprof, do_cprofile)
    ∷ (call pm_srv_fork, do_srv_fork)
    ∷ (call pm_srv_kill, do_srv_kill)
    ∷ (call pm_exec_new, do_newexec)
    ∷ (call pm_exec_restart, do_execrestart)
    ∷ (call pm_getepinfo, do_getepinfo)
    ∷ (call pm_getprocnr, do_getprocnr)
    ∷ (call pm_getsysinfo, do_getsysinfo)
    ∷ (call pm_checkancestor, do_checkifancestor)
    ∷ []

-- The table before the patch.
unfoldable pub call_vec_before : List (ℕ × Routine)
call_vec_before =
    (call pm_exit, do_exit)
    ∷ (call pm_fork, do_fork)
    ∷ (call pm_waitpid, do_waitpid)
    ∷ (call pm_getpid, do_get)
    ∷ (call pm_setuid, do_set)
    ∷ (call pm_getuid, do_get)
    ∷ (call pm_stime, do_stime)
    ∷ (call pm_ptrace, do_trace)
    ∷ (call pm_setgroups, do_set)
    ∷ (call pm_getgroups, do_get)
    ∷ (call pm_kill, do_kill)
    ∷ (call pm_setgid, do_set)
    ∷ (call pm_getgid, do_get)
    ∷ (call pm_exec, do_exec)
    ∷ (call pm_setsid, do_set)
    ∷ (call pm_getpgrp, do_get)
    ∷ (call pm_itimer, do_itimer)
    ∷ (call pm_getmcontext, do_getmcontext)
    ∷ (call pm_setmcontext, do_setmcontext)
    ∷ (call pm_sigaction, do_sigaction)
    ∷ (call pm_sigsuspend, do_sigsuspend)
    ∷ (call pm_sigpending, do_sigpending)
    ∷ (call pm_sigprocmask, do_sigprocmask)
    ∷ (call pm_sigreturn, do_sigreturn)
    ∷ (call pm_sysuname, do_sysuname)
    ∷ (call pm_getpriority, do_getsetpriority)
    ∷ (call pm_setpriority, do_getsetpriority)
    ∷ (call pm_gettimeofday, do_time)
    ∷ (call pm_seteuid, do_set)
    ∷ (call pm_setegid, do_set)
    ∷ (call pm_issetugid, do_get)
    ∷ (call pm_getsid, do_get)
    ∷ (call pm_clock_getres, do_getres)
    ∷ (call pm_clock_gettime, do_gettime)
    ∷ (call pm_clock_settime, do_settime)
    ∷ (call pm_getrusage, do_getrusage)
    ∷ (call pm_reboot, do_reboot)
    ∷ (call pm_svrctl, do_svrctl)
    ∷ (call pm_sprof, do_sprofile)
    ∷ (call pm_cprof, do_cprofile)
    ∷ (call pm_srv_fork, do_srv_fork)
    ∷ (call pm_srv_kill, do_srv_kill)
    ∷ (call pm_exec_new, do_newexec)
    ∷ (call pm_exec_restart, do_execrestart)
    ∷ (call pm_getepinfo, do_getepinfo)
    ∷ (call pm_getprocnr, do_getprocnr)
    ∷ (call pm_getsysinfo, do_getsysinfo)
    ∷ []

-- The routine at an index; an index that no initialiser names holds a null pointer.
unfoldable pub routine_at : List (ℕ × Routine) → ℕ → Option Routine
routine_at [] n = none
routine_at ((k, r) ∷ t) n = if k == n then some r else routine_at t n
