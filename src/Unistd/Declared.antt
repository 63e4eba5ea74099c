-- ===== src/Unistd/Declared.antt =====
-- The functions of the library against the prototypes of unistd.h.
use Prim.Native.String.{String}
use clipboard.Prelude.{◌≡◌, refl, ◌≢◌, none, some, ap, sym, ◌∙◌}
use clipboard.Prototypes.{prototype_of, insert_at, prototype_of-insert_at}
use clipboard.Unistd.{check_if_ancestor_type, copy_to_clipboard_type, paste_from_clipboard_type}
use clipboard.Unistd.Source.{posix_functions}
use clipboard.Unistd.Installed.{installed_posix_functions}
use clipboard.Unistd.Before.{old_posix_functions}
use clipboard.Unistd.InstalledBefore.{old_installed_posix_functions}

inserted :
    posix_functions
    ≡ insert_at 35
        ("paste_from_clipboard", paste_from_clipboard_type.0, paste_from_clipboard_type.1)
        (insert_at 8
          ("copy_to_clipboard", copy_to_clipboard_type.0, copy_to_clipboard_type.1)
          (insert_at 4
            ("check_if_ancestor", check_if_ancestor_type.0, check_if_ancestor_type.1)
            old_posix_functions))
unfolding posix_functions old_posix_functions
inserted = refl

installed_same : installed_posix_functions ≡ posix_functions
unfolding installed_posix_functions posix_functions
installed_same = refl

old_installed_same : old_installed_posix_functions ≡ old_posix_functions
unfolding old_installed_posix_functions old_posix_functions
old_installed_same = refl

kept :
    (name : String)
    → name ≢ "check_if_ancestor"
    → name ≢ "copy_to_clipboard"
    → name ≢ "paste_from_clipboard"
    → prototype_of posix_functions name ≡ prototype_of old_posix_functions name
kept name n1 n2 n3 =
    ap (λ ps. prototype_of ps name) inserted
    ∙ prototype_of-insert_at 35 _ "paste_from_clipboard" _ _ name (λ e. n3 (sym e))
    ∙ prototype_of-insert_at 8 _ "copy_to_clipboard" _ _ name (λ e. n2 (sym e))
    ∙ prototype_of-insert_at 4 _ "check_if_ancestor" _ _ name (λ e. n1 (sym e))

-- unistd.h declares each of the three functions of the library with the type of its definition; it did
-- not declare them before. The patch changes no other prototype of the first section, and the installed
-- header agrees, before the patch as after it.
pub library_declared :
    (name : String)
    → name ≢ "check_if_ancestor"
    → name ≢ "copy_to_clipboard"
    → name ≢ "paste_from_clipboard"
    → (prototype_of posix_functions "check_if_ancestor" ≡ some check_if_ancestor_type)
      × (prototype_of posix_functions "copy_to_clipboard" ≡ some copy_to_clipboard_type)
      × (prototype_of posix_functions "paste_from_clipboard" ≡ some paste_from_clipboard_type)
      × (prototype_of old_posix_functions "check_if_ancestor" ≡ none)
      × (prototype_of old_posix_functions "copy_to_clipboard" ≡ none)
      × (prototype_of old_posix_functions "paste_from_clipboard" ≡ none)
      × (prototype_of posix_functions name ≡ prototype_of old_posix_functions name)
      × (installed_posix_functions ≡ posix_functions)
      × (old_installed_posix_functions ≡ old_posix_functions)
unfolding prototype_of posix_functions old_posix_functions
library_declared name n1 n2 n3 =
    (refl, refl, refl, refl, refl, refl, kept name n1 n2 n3, installed_same, old_installed_same)
