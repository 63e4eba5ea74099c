-- ===== src/Headers.antt =====
-- The headers of MINIX that the patch changes: minix/callnr.h and minix/dmap.h, each once for the
-- kernel's sources (usr/src/minix/include) and once as installed (usr/include), after the patch (new)
-- and before it (get). A list of `#define` lines is a list of names with their numbers.
pub mod Calls
pub mod CallsInstalled
pub mod CallsBefore
pub mod CallsInstalledBefore
pub mod Devices
pub mod DevicesInstalled
pub mod DevicesBefore
pub mod DevicesInstalledBefore
pub mod Lookup
pub mod CallNumbers
pub mod DeviceNumbers
use Prim.Native.String.{String}
use text.Mathlib.Text.{◌==◌}
use clipboard.Prelude
use clipboard.Prelude.{
  ℕ, ◌+◌, ◌-◌, ◌*◌, ◌%◌, Bool, if◌then◌else◌, Option, none, some, List, [], ◌∷◌,
}
use clipboard.Pm.CallNr.{pm_base}

-- What the preprocessor puts for a name.
unfoldable pub value_of : List (String × ℕ) → String → Option ℕ
value_of [] name = none
value_of ((key, v) ∷ defines) name =
    let rest = value_of defines name in if key == name then some v else rest

abbrev pub vfs_base : ℕ
vfs_base = 256

-- The highest number of a call of VFS from the base plus one.
abbrev pub nr_vfs_calls : ℕ
nr_vfs_calls = 49

-- `type & ~0xff`, on a number that is not negative.
abbrev pub page_of : ℕ → ℕ
page_of call_nr = call_nr - call_nr % 256

abbrev pub is_pm_call : ℕ → Bool
is_pm_call call_nr = Prelude.◌==◌ (page_of call_nr) pm_base

abbrev pub is_vfs_call : ℕ → Bool
is_vfs_call call_nr = Prelude.◌==◌ (page_of call_nr) vfs_base

-- CTRLR: the major of a disk controller.
abbrev pub ctrlr : ℕ → ℕ
ctrlr n = if Prelude.◌==◌ n 0 then 3 else 8 + 2 * (n - 1)
