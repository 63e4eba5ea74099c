-- ===== src/Pm/ProtoBefore.antt =====
-- The prototypes in proto.h before the patch (get/usr/src/minix/servers/pm): for each function its
-- result and its parameters.
use Prim.Native.String.{String}
use clipboard.Prelude.{List, [], ◌∷◌}

unfoldable pub old_prototypes : List (String × String × List String)
old_prototypes =
    ("do_itimer", "int", [])
    ∷ ("set_alarm", "void", "struct mproc *" ∷ "clock_t" ∷ [])
    ∷ ("check_vtimer", "void", "int" ∷ "int" ∷ [])
    ∷ ("do_exec", "int", [])
    ∷ ("do_newexec", "int", [])
    ∷ ("do_execrestart", "int", [])
    ∷ (
      "exec_restart",
      "void",
      "struct mproc *" ∷ "int" ∷ "vir_bytes" ∷ "vir_bytes" ∷ "vir_bytes" ∷ [],
    )
    ∷ ("do_fork", "int", [])
    ∷ ("do_srv_fork", "int", [])
    ∷ ("do_exit", "int", [])
    ∷ ("exit_proc", "void", "struct mproc *" ∷ "int" ∷ "int" ∷ [])
    ∷ ("exit_restart", "void", "struct mproc *" ∷ "int" ∷ [])
    ∷ ("do_waitpid", "int", [])
    ∷ ("wait_test", "int", "struct mproc *" ∷ "struct mproc *" ∷ [])
    ∷ ("do_get", "int", [])
    ∷ ("do_set", "int", [])
    ∷ ("main", "int", [])
    ∷ ("reply", "void", "int" ∷ "int" ∷ [])
    ∷ ("do_getmcontext", "int", [])
    ∷ ("do_setmcontext", "int", [])
    ∷ ("do_reboot", "int", [])
    ∷ ("do_sysuname", "int", [])
    ∷ ("do_getsysinfo", "int", [])
    ∷ ("do_getprocnr", "int", [])
    ∷ ("do_getepinfo", "int", [])
    ∷ ("do_svrctl", "int", [])
    ∷ ("do_getsetpriority", "int", [])
    ∷ ("do_getrusage", "int", [])
    ∷ ("sched_init", "void", [])
    ∷ ("sched_start_user", "int", "endpoint_t" ∷ "struct mproc *" ∷ [])
    ∷ ("sched_nice", "int", "struct mproc *" ∷ "int" ∷ [])
    ∷ ("do_sprofile", "int", [])
    ∷ ("do_cprofile", "int", [])
    ∷ ("do_kill", "int", [])
    ∷ ("do_srv_kill", "int", [])
    ∷ ("process_ksig", "int", "endpoint_t" ∷ "int" ∷ [])
    ∷ ("check_sig", "int", "pid_t" ∷ "int" ∷ "int" ∷ [])
    ∷ ("sig_proc", "void", "struct mproc *" ∷ "int" ∷ "int" ∷ "int" ∷ [])
    ∷ ("do_sigaction", "int", [])
    ∷ ("do_sigpending", "int", [])
    ∷ ("do_sigprocmask", "int", [])
    ∷ ("do_sigreturn", "int", [])
    ∷ ("do_sigsuspend", "int", [])
    ∷ ("check_pending", "void", "struct mproc *" ∷ [])
    ∷ ("restart_sigs", "void", "struct mproc *" ∷ [])
    ∷ ("vm_notify_sig_wrapper", "void", "endpoint_t" ∷ [])
    ∷ ("do_stime", "int", [])
    ∷ ("do_time", "int", [])
    ∷ ("do_getres", "int", [])
    ∷ ("do_gettime", "int", [])
    ∷ ("do_settime", "int", [])
    ∷ ("do_trace", "int", [])
    ∷ ("trace_stop", "void", "struct mproc *" ∷ "int" ∷ [])
    ∷ ("get_free_pid", "pid_t", [])
    ∷ ("find_param", "char *", "const char *" ∷ [])
    ∷ ("find_proc", "struct mproc *", "pid_t" ∷ [])
    ∷ ("nice_to_priority", "int", "int" ∷ "unsigned *" ∷ [])
    ∷ ("pm_isokendpt", "int", "int" ∷ "int *" ∷ [])
    ∷ ("tell_vfs", "void", "struct mproc *" ∷ "message *" ∷ [])
    ∷ []
