-- ===== src/Unistd.antt =====
-- unistd.h, to which the patch adds the functions of the library: for the sources (usr/src/include)
-- and as installed (usr/include), after the patch (new) and before it (get). Against it, the types
-- with which check_if_ancestor.c and copy_paste_clipboard.c of new/usr/src/lib/libc/misc define the
-- functions.
pub mod Source
pub mod Installed
pub mod Before
pub mod InstalledBefore
pub mod Declared
use Prim.Native.String.{String}
use clipboard.Prelude.{List, [], ◌∷◌}

abbrev pub check_if_ancestor_type : String × List String
check_if_ancestor_type = ("uint8_t", "pid_t" ∷ "pid_t" ∷ [])

abbrev pub copy_to_clipboard_type : String × List String
copy_to_clipboard_type = ("uint32_t", "char *" ∷ "uint32_t" ∷ [])

abbrev pub paste_from_clipboard_type : String × List String
paste_from_clipboard_type = ("uint32_t", "uint32_t" ∷ "char *" ∷ "uint32_t" ∷ [])
