-- ===== src/Tests/Headers.antt =====
-- The headers of MINIX.
use Prim.Native.String.{String}
use clipboard.Prelude.{◌↔◌, ◌≡◌, ◌≢◌, ◌⊎◌, none, some}
use clipboard.Pm.CallNr.{pm_checkancestor}
use clipboard.Headers.{value_of}
use clipboard.Headers.CallNumbers.{
  calls, old_calls, installed_calls, old_installed_calls, call_numbers_patched,
}

abbrev new_call : String
new_call = "PM_CHECKANCESTOR"

abbrev clipboard_name : String
clipboard_name = "CLIPBOARD_MAJOR"

call_numbers_patched_example :
    ((value_of calls new_call ≡ some 48) ↔ (
      (value_of old_calls new_call ≡ some 48)
      ⊎ ((new_call ≡ "PM_CHECKANCESTOR") × (48 ≡ pm_checkancestor))))
    × (value_of installed_calls new_call ≡ value_of calls new_call)
    × (value_of old_installed_calls new_call ≡ value_of old_calls new_call)
    × (value_of old_calls "PM_CHECKANCESTOR" ≡ none)
    × ((other : String) → value_of old_calls other ≢ some pm_checkancestor)
call_numbers_patched_example = call_numbers_patched new_call 48
