-- ===== src/Unistd/InstalledBefore.antt =====
-- The functions of IEEE Std 1003.1-90 in the installed unistd.h before the patch (get/usr/include).
-- No feature macro is taken to be defined. For each its result and its parameters.
use Prim.Native.String.{String}
use clipboard.Prelude.{List, [], ◌∷◌}

unfoldable pub old_installed_posix_functions : List (String × String × List String)
old_installed_posix_functions =
    ("_exit", "__dead void", "int" ∷ [])
    ∷ ("access", "int", "const char *" ∷ "int" ∷ [])
    ∷ ("alarm", "unsigned int", "unsigned int" ∷ [])
    ∷ ("chdir", "int", "const char *" ∷ [])
    ∷ ("chown", "int", "const char *" ∷ "uid_t" ∷ "gid_t" ∷ [])
    ∷ ("close", "int", "int" ∷ [])
    ∷ ("confstr", "size_t", "int" ∷ "char *" ∷ "size_t" ∷ [])
    ∷ ("cuserid", "char *", "char *" ∷ [])
    ∷ ("dup", "int", "int" ∷ [])
    ∷ ("dup2", "int", "int" ∷ "int" ∷ [])
    ∷ ("execl", "int", "const char *" ∷ "const char *" ∷ "..." ∷ [])
    ∷ ("execle", "int", "const char *" ∷ "const char *" ∷ "..." ∷ [])
    ∷ ("execlp", "int", "const char *" ∷ "const char *" ∷ "..." ∷ [])
    ∷ ("execv", "int", "const char *" ∷ "char * const *" ∷ [])
    ∷ ("execve", "int", "const char *" ∷ "char * const *" ∷ "char * const *" ∷ [])
    ∷ ("execvp", "int", "const char *" ∷ "char * const *" ∷ [])
    ∷ ("fork", "pid_t", [])
    ∷ ("fpathconf", "long", "int" ∷ "int" ∷ [])
    ∷ ("getcwd", "char *", "char *" ∷ "size_t" ∷ [])
    ∷ ("getegid", "gid_t", [])
    ∷ ("geteuid", "uid_t", [])
    ∷ ("getgid", "gid_t", [])
    ∷ ("getgroups", "int", "int" ∷ "gid_t []" ∷ [])
    ∷ ("getlogin", "__aconst char *", [])
    ∷ ("getlogin_r", "int", "char *" ∷ "size_t" ∷ [])
    ∷ ("getpgrp", "pid_t", [])
    ∷ ("getpid", "pid_t", [])
    ∷ ("getppid", "pid_t", [])
    ∷ ("getuid", "uid_t", [])
    ∷ ("isatty", "int", "int" ∷ [])
    ∷ ("link", "int", "const char *" ∷ "const char *" ∷ [])
    ∷ ("pathconf", "long", "const char *" ∷ "int" ∷ [])
    ∷ ("pause", "int", [])
    ∷ ("pipe", "int", "int *" ∷ [])
    ∷ ("read", "ssize_t", "int" ∷ "void *" ∷ "size_t" ∷ [])
    ∷ ("rmdir", "int", "const char *" ∷ [])
    ∷ ("setgid", "int", "gid_t" ∷ [])
    ∷ ("setpgid", "int", "pid_t" ∷ "pid_t" ∷ [])
    ∷ ("setsid", "pid_t", [])
    ∷ ("setuid", "int", "uid_t" ∷ [])
    ∷ ("sleep", "unsigned int", "unsigned int" ∷ [])
    ∷ ("sysconf", "long", "int" ∷ [])
    ∷ ("tcgetpgrp", "pid_t", "int" ∷ [])
    ∷ ("tcsetpgrp", "int", "int" ∷ "pid_t" ∷ [])
    ∷ ("ttyname", "__aconst char *", "int" ∷ [])
    ∷ ("unlink", "int", "const char *" ∷ [])
    ∷ ("write", "ssize_t", "int" ∷ "const void *" ∷ "size_t" ∷ [])
    ∷ []
