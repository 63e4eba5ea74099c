-- ===== src/Headers/Calls.antt =====
-- The numbers of the calls in minix/callnr.h (new/usr/src/minix/include).
use Prim.Native.String.{String}
use clipboard.Prelude.{ℕ, ◌+◌, List, [], ◌∷◌}
use clipboard.Headers.{vfs_base}
use clipboard.Pm.CallNr.{
  pm_exit, pm_fork, pm_waitpid, pm_getpid, pm_setuid, pm_getuid, pm_stime, pm_ptrace, pm_setgroups,
  pm_getgroups, pm_kill, pm_setgid, pm_getgid, pm_exec, pm_setsid, pm_getpgrp, pm_itimer,
  pm_getmcontext, pm_setmcontext, pm_sigaction, pm_sigsuspend, pm_sigpending, pm_sigprocmask,
  pm_sigreturn, pm_sysuname, pm_getpriority, pm_setpriority, pm_gettimeofday, pm_seteuid,
  pm_setegid, pm_issetugid, pm_getsid, pm_clock_getres, pm_clock_gettime, pm_clock_settime,
  pm_getrusage, pm_reboot, pm_svrctl, pm_sprof, pm_cprof, pm_srv_fork, pm_srv_kill, pm_exec_new,
  pm_exec_restart, pm_getepinfo, pm_getprocnr, pm_getsysinfo, pm_checkancestor,
}

unfoldable pub pm_calls : List (String × ℕ)
pm_calls =
    ("PM_EXIT", pm_exit)
    ∷ ("PM_FORK", pm_fork)
    ∷ ("PM_WAITPID", pm_waitpid)
    ∷ ("PM_GETPID", pm_getpid)
    ∷ ("PM_SETUID", pm_setuid)
    ∷ ("PM_GETUID", pm_getuid)
    ∷ ("PM_STIME", pm_stime)
    ∷ ("PM_PTRACE", pm_ptrace)
    ∷ ("PM_SETGROUPS", pm_setgroups)
    ∷ ("PM_GETGROUPS", pm_getgroups)
    ∷ ("PM_KILL", pm_kill)
    ∷ ("PM_SETGID", pm_setgid)
    ∷ ("PM_GETGID", pm_getgid)
    ∷ ("PM_EXEC", pm_exec)
    ∷ ("PM_SETSID", pm_setsid)
    ∷ ("PM_GETPGRP", pm_getpgrp)
    ∷ ("PM_ITIMER", pm_itimer)
    ∷ ("PM_GETMCONTEXT", pm_getmcontext)
    ∷ ("PM_SETMCONTEXT", pm_setmcontext)
    ∷ ("PM_SIGACTION", pm_sigaction)
    ∷ ("PM_SIGSUSPEND", pm_sigsuspend)
    ∷ ("PM_SIGPENDING", pm_sigpending)
    ∷ ("PM_SIGPROCMASK", pm_sigprocmask)
    ∷ ("PM_SIGRETURN", pm_sigreturn)
    ∷ ("PM_SYSUNAME", pm_sysuname)
    ∷ ("PM_GETPRIORITY", pm_getpriority)
    ∷ ("PM_SETPRIORITY", pm_setpriority)
    ∷ ("PM_GETTIMEOFDAY", pm_gettimeofday)
    ∷ ("PM_SETEUID", pm_seteuid)
    ∷ ("PM_SETEGID", pm_setegid)
    ∷ ("PM_ISSETUGID", pm_issetugid)
    ∷ ("PM_GETSID", pm_getsid)
    ∷ ("PM_CLOCK_GETRES", pm_clock_getres)
    ∷ ("PM_CLOCK_GETTIME", pm_clock_gettime)
    ∷ ("PM_CLOCK_SETTIME", pm_clock_settime)
    ∷ ("PM_GETRUSAGE", pm_getrusage)
    ∷ ("PM_REBOOT", pm_reboot)
    ∷ ("PM_SVRCTL", pm_svrctl)
    ∷ ("PM_SPROF", pm_sprof)
    ∷ ("PM_CPROF", pm_cprof)
    ∷ ("PM_SRV_FORK", pm_srv_fork)
    ∷ ("PM_SRV_KILL", pm_srv_kill)
    ∷ ("PM_EXEC_NEW", pm_exec_new)
    ∷ ("PM_EXEC_RESTART", pm_exec_restart)
    ∷ ("PM_GETEPINFO", pm_getepinfo)
    ∷ ("PM_GETPROCNR", pm_getprocnr)
    ∷ ("PM_GETSYSINFO", pm_getsysinfo)
    ∷ ("PM_CHECKANCESTOR", pm_checkancestor)
    ∷ []

unfoldable pub vfs_calls : List (String × ℕ)
vfs_calls =
    ("VFS_READ", vfs_base + 0)
    ∷ ("VFS_WRITE", vfs_base + 1)
    ∷ ("VFS_LSEEK", vfs_base + 2)
    ∷ ("VFS_OPEN", vfs_base + 3)
    ∷ ("VFS_CREAT", vfs_base + 4)
    ∷ ("VFS_CLOSE", vfs_base + 5)
    ∷ ("VFS_LINK", vfs_base + 6)
    ∷ ("VFS_UNLINK", vfs_base + 7)
    ∷ ("VFS_CHDIR", vfs_base + 8)
    ∷ ("VFS_MKDIR", vfs_base + 9)
    ∷ ("VFS_MKNOD", vfs_base + 10)
    ∷ ("VFS_CHMOD", vfs_base + 11)
    ∷ ("VFS_CHOWN", vfs_base + 12)
    ∷ ("VFS_MOUNT", vfs_base + 13)
    ∷ ("VFS_UMOUNT", vfs_base + 14)
    ∷ ("VFS_ACCESS", vfs_base + 15)
    ∷ ("VFS_SYNC", vfs_base + 16)
    ∷ ("VFS_RENAME", vfs_base + 17)
    ∷ ("VFS_RMDIR", vfs_base + 18)
    ∷ ("VFS_SYMLINK", vfs_base + 19)
    ∷ ("VFS_READLINK", vfs_base + 20)
    ∷ ("VFS_STAT", vfs_base + 21)
    ∷ ("VFS_FSTAT", vfs_base + 22)
    ∷ ("VFS_LSTAT", vfs_base + 23)
    ∷ ("VFS_IOCTL", vfs_base + 24)
    ∷ ("VFS_FCNTL", vfs_base + 25)
    ∷ ("VFS_PIPE2", vfs_base + 26)
    ∷ ("VFS_UMASK", vfs_base + 27)
    ∷ ("VFS_CHROOT", vfs_base + 28)
    ∷ ("VFS_GETDENTS", vfs_base + 29)
    ∷ ("VFS_SELECT", vfs_base + 30)
    ∷ ("VFS_FCHDIR", vfs_base + 31)
    ∷ ("VFS_FSYNC", vfs_base + 32)
    ∷ ("VFS_TRUNCATE", vfs_base + 33)
    ∷ ("VFS_FTRUNCATE", vfs_base + 34)
    ∷ ("VFS_FCHMOD", vfs_base + 35)
    ∷ ("VFS_FCHOWN", vfs_base + 36)
    ∷ ("VFS_UTIMENS", vfs_base + 37)
    ∷ ("VFS_VMCALL", vfs_base + 38)
    ∷ ("VFS_GETVFSSTAT", vfs_base + 39)
    ∷ ("VFS_STATVFS1", vfs_base + 40)
    ∷ ("VFS_FSTATVFS1", vfs_base + 41)
    ∷ ("VFS_GETRUSAGE", vfs_base + 42)
    ∷ ("VFS_SVRCTL", vfs_base + 43)
    ∷ ("VFS_GCOV_FLUSH", vfs_base + 44)
    ∷ ("VFS_MAPDRIVER", vfs_base + 45)
    ∷ ("VFS_COPYFD", vfs_base + 46)
    ∷ ("VFS_CHECKPERMS", vfs_base + 47)
    ∷ ("VFS_GETSYSINFO", vfs_base + 48)
    ∷ []
