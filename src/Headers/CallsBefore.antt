-- ===== src/Headers/CallsBefore.antt =====
-- The numbers of the calls in minix/callnr.h before the patch (get/usr/src/minix/include).
use Prim.Native.String.{String}
use clipboard.Prelude.{ℕ, ◌+◌, List, [], ◌∷◌}
use clipboard.Headers.{vfs_base}
use clipboard.Pm.CallNr.{pm_base}

unfoldable pub old_pm_calls : List (String × ℕ)
old_pm_calls =
    ("PM_EXIT", pm_base + 1)
    ∷ ("PM_FORK", pm_base + 2)
    ∷ ("PM_WAITPID", pm_base + 3)
    ∷ ("PM_GETPID", pm_base + 4)
    ∷ ("PM_SETUID", pm_base + 5)
    ∷ ("PM_GETUID", pm_base + 6)
    ∷ ("PM_STIME", pm_base + 7)
    ∷ ("PM_PTRACE", pm_base + 8)
    ∷ ("PM_SETGROUPS", pm_base + 9)
    ∷ ("PM_GETGROUPS", pm_base + 10)
    ∷ ("PM_KILL", pm_base + 11)
    ∷ ("PM_SETGID", pm_base + 12)
    ∷ ("PM_GETGID", pm_base + 13)
    ∷ ("PM_EXEC", pm_base + 14)
    ∷ ("PM_SETSID", pm_base + 15)
    ∷ ("PM_GETPGRP", pm_base + 16)
    ∷ ("PM_ITIMER", pm_base + 17)
    ∷ ("PM_GETMCONTEXT", pm_base + 18)
    ∷ ("PM_SETMCONTEXT", pm_base + 19)
    ∷ ("PM_SIGACTION", pm_base + 20)
    ∷ ("PM_SIGSUSPEND", pm_base + 21)
    ∷ ("PM_SIGPENDING", pm_base + 22)
    ∷ ("PM_SIGPROCMASK", pm_base + 23)
    ∷ ("PM_SIGRETURN", pm_base + 24)
    ∷ ("PM_SYSUNAME", pm_base + 25)
    ∷ ("PM_GETPRIORITY", pm_base + 26)
    ∷ ("PM_SETPRIORITY", pm_base + 27)
    ∷ ("PM_GETTIMEOFDAY", pm_base + 28)
    ∷ ("PM_SETEUID", pm_base + 29)
    ∷ ("PM_SETEGID", pm_base + 30)
    ∷ ("PM_ISSETUGID", pm_base + 31)
    ∷ ("PM_GETSID", pm_base + 32)
    ∷ ("PM_CLOCK_GETRES", pm_base + 33)
    ∷ ("PM_CLOCK_GETTIME", pm_base + 34)
    ∷ ("PM_CLOCK_SETTIME", pm_base + 35)
    ∷ ("PM_GETRUSAGE", pm_base + 36)
    ∷ ("PM_REBOOT", pm_base + 37)
    ∷ ("PM_SVRCTL", pm_base + 38)
    ∷ ("PM_SPROF", pm_base + 39)
    ∷ ("PM_CPROF", pm_base + 40)
    ∷ ("PM_SRV_FORK", pm_base + 41)
    ∷ ("PM_SRV_KILL", pm_base + 42)
    ∷ ("PM_EXEC_NEW", pm_base + 43)
    ∷ ("PM_EXEC_RESTART", pm_base + 44)
    ∷ ("PM_GETEPINFO", pm_base + 45)
    ∷ ("PM_GETPROCNR", pm_base + 46)
    ∷ ("PM_GETSYSINFO", pm_base + 47)
    ∷ []

unfoldable pub old_vfs_calls : List (String × ℕ)
old_vfs_calls =
    ("VFS_READ", vfs_base + 0)
    ∷ ("VFS_WRITE", vfs_base + 1)
    ∷ ("VFS_LSEEK", vfs_base + 2)
    ∷ ("VFS_OPEN", vfs_base + 3)
    ∷ ("VFS_CREAT", vfs_base + 4)
    ∷ ("VFS_CLOSE", vfs_base + 5)
    ∷ ("VFS_LINK", vfs_base + 6)
    ∷ ("VFS_UNLINK", vfs_base + 7)
    ∷ ("VFS_CHDIR", vfs_base + 8)
    ∷ ("VFS_MKDIR", vfs_base + 9)
    ∷ ("VFS_MKNOD", vfs_base + 10)
    ∷ ("VFS_CHMOD", vfs_base + 11)
    ∷ ("VFS_CHOWN", vfs_base + 12)
    ∷ ("VFS_MOUNT", vfs_base + 13)
    ∷ ("VFS_UMOUNT", vfs_base + 14)
    ∷ ("VFS_ACCESS", vfs_base + 15)
    ∷ ("VFS_SYNC", vfs_base + 16)
    ∷ ("VFS_RENAME", vfs_base + 17)
    ∷ ("VFS_RMDIR", vfs_base + 18)
    ∷ ("VFS_SYMLINK", vfs_base + 19)
    ∷ ("VFS_READLINK", vfs_base + 20)
    ∷ ("VFS_STAT", vfs_base + 21)
    ∷ ("VFS_FSTAT", vfs_base + 22)
    ∷ ("VFS_LSTAT", vfs_base + 23)
    ∷ ("VFS_IOCTL", vfs_base + 24)
    ∷ ("VFS_FCNTL", vfs_base + 25)
    ∷ ("VFS_PIPE2", vfs_base + 26)
    ∷ ("VFS_UMASK", vfs_base + 27)
    ∷ ("VFS_CHROOT", vfs_base + 28)
    ∷ ("VFS_GETDENTS", vfs_base + 29)
    ∷ ("VFS_SELECT", vfs_base + 30)
    ∷ ("VFS_FCHDIR", vfs_base + 31)
    ∷ ("VFS_FSYNC", vfs_base + 32)
    ∷ ("VFS_TRUNCATE", vfs_base + 33)
    ∷ ("VFS_FTRUNCATE", vfs_base + 34)
    ∷ ("VFS_FCHMOD", vfs_base + 35)
    ∷ ("VFS_FCHOWN", vfs_base + 36)
    ∷ ("VFS_UTIMENS", vfs_base + 37)
    ∷ ("VFS_VMCALL", vfs_base + 38)
    ∷ ("VFS_GETVFSSTAT", vfs_base + 39)
    ∷ ("VFS_STATVFS1", vfs_base + 40)
    ∷ ("VFS_FSTATVFS1", vfs_base + 41)
    ∷ ("VFS_GETRUSAGE", vfs_base + 42)
    ∷ ("VFS_SVRCTL", vfs_base + 43)
    ∷ ("VFS_GCOV_FLUSH", vfs_base + 44)
    ∷ ("VFS_MAPDRIVER", vfs_base + 45)
    ∷ ("VFS_COPYFD", vfs_base + 46)
    ∷ ("VFS_CHECKPERMS", vfs_base + 47)
    ∷ ("VFS_GETSYSINFO", vfs_base + 48)
    ∷ []
