-- ===== src/Pm/Declared.antt =====
-- The routines of the table of calls against the prototypes of proto.h.
use Prim.Native.String.{String}
use clipboard.Prelude.{◌≡◌, refl, ◌≢◌, none, some, List, [], ◌∙◌, ap, sym}
use clipboard.Pm.Table.{
  Routine, do_exit, do_fork, do_waitpid, do_get, do_set, do_stime, do_trace, do_kill, do_exec,
  do_itimer, do_getmcontext, do_setmcontext, do_sigaction, do_sigsuspend, do_sigpending,
  do_sigprocmask, do_sigreturn, do_sysuname, do_getsetpriority, do_time, do_getres, do_gettime,
  do_settime, do_getrusage, do_reboot, do_svrctl, do_sprofile, do_cprofile, do_srv_fork,
  do_srv_kill, do_newexec, do_execrestart, do_getepinfo, do_getprocnr, do_getsysinfo,
  do_checkifancestor,
}
use clipboard.Prototypes.{prototype_of, insert_at, prototype_of-insert_at}
use clipboard.Pm.Proto.{prototypes}
use clipboard.Pm.ProtoBefore.{old_prototypes}

-- The name by which the table has a routine.
abbrev pub routine_name : Routine → String
routine_name do_exit = "do_exit"
routine_name do_fork = "do_fork"
routine_name do_waitpid = "do_waitpid"
routine_name do_get = "do_get"
routine_name do_set = "do_set"
routine_name do_stime = "do_stime"
routine_name do_trace = "do_trace"
routine_name do_kill = "do_kill"
routine_name do_exec = "do_exec"
routine_name do_itimer = "do_itimer"
routine_name do_getmcontext = "do_getmcontext"
routine_name do_setmcontext = "do_setmcontext"
routine_name do_sigaction = "do_sigaction"
routine_name do_sigsuspend = "do_sigsuspend"
routine_name do_sigpending = "do_sigpending"
routine_name do_sigprocmask = "do_sigprocmask"
routine_name do_sigreturn = "do_sigreturn"
routine_name do_sysuname = "do_sysuname"
routine_name do_getsetpriority = "do_getsetpriority"
routine_name do_time = "do_time"
routine_name do_getres = "do_getres"
routine_name do_gettime = "do_gettime"
routine_name do_settime = "do_settime"
routine_name do_getrusage = "do_getrusage"
routine_name do_reboot = "do_reboot"
routine_name do_svrctl = "do_svrctl"
routine_name do_sprofile = "do_sprofile"
routine_name do_cprofile = "do_cprofile"
routine_name do_srv_fork = "do_srv_fork"
routine_name do_srv_kill = "do_srv_kill"
routine_name do_newexec = "do_newexec"
routine_name do_execrestart = "do_execrestart"
routine_name do_getepinfo = "do_getepinfo"
routine_name do_getprocnr = "do_getprocnr"
routine_name do_getsysinfo = "do_getsysinfo"
routine_name do_checkifancestor = "do_checkifancestor"

-- The type `int (*)(void)` of an element of the table.
abbrev pub element : String × List String
element = ("int", [])

inserted : prototypes ≡ insert_at 3 ("do_checkifancestor", "int", []) old_prototypes
unfolding prototypes old_prototypes
inserted = refl

declared : (r : Routine) → prototype_of prototypes (routine_name r) ≡ some element
unfolding prototype_of prototypes
declared do_exit = refl
declared do_fork = refl
declared do_waitpid = refl
declared do_get = refl
declared do_set = refl
declared do_stime = refl
declared do_trace = refl
declared do_kill = refl
declared do_exec = refl
declared do_itimer = refl
declared do_getmcontext = refl
declared do_setmcontext = refl
declared do_sigaction = refl
declared do_sigsuspend = refl
declared do_sigpending = refl
declared do_sigprocmask = refl
declared do_sigreturn = refl
declared do_sysuname = refl
declared do_getsetpriority = refl
declared do_time = refl
declared do_getres = refl
declared do_gettime = refl
declared do_settime = refl
declared do_getrusage = refl
declared do_reboot = refl
declared do_svrctl = refl
declared do_sprofile = refl
declared do_cprofile = refl
declared do_srv_fork = refl
declared do_srv_kill = refl
declared do_newexec = refl
declared do_execrestart = refl
declared do_getepinfo = refl
declared do_getprocnr = refl
declared do_getsysinfo = refl
declared do_checkifancestor = refl

-- Each routine of the table of calls is declared with the type of the table's elements. The patch
-- changes no other prototype, and adds that of do_checkifancestor, which was not declared before.
pub routines_declared :
    (r : Routine) (name : String)
    → name ≢ routine_name do_checkifancestor
    → (prototype_of prototypes (routine_name r) ≡ some element)
      × (prototype_of old_prototypes (routine_name do_checkifancestor) ≡ none)
      × (prototype_of prototypes name ≡ prototype_of old_prototypes name)
unfolding prototype_of old_prototypes
routines_declared r name ne = (declared r, refl, kept name ne)
  where
    kept :
        (name : String)
        → name ≢ "do_checkifancestor"
        → prototype_of prototypes name ≡ prototype_of old_prototypes name
    kept name ne =
        ap (λ ps. prototype_of ps name) inserted
        ∙ prototype_of-insert_at 3 old_prototypes "do_checkifancestor" "int" [] name
            (λ e. ne (sym e))
