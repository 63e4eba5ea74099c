-- ===== src/Headers/CallNumbers.antt =====
-- The numbers of calls in the four copies of minix/callnr.h.
use Prim.Native.String.{String}
use clipboard.Prelude.{
  ℕ, none, ◌↔◌, ◌<◌, ◌≡◌, refl, Bool, true, ltb, ltb→lt, some, List, ◌∷◌, ◌++◌, ap, ◌∙◌, sym, ◌+◌,
  ◌≢◌, ◌⊎◌, inl, inr, not, ◌&&◌, ◌==◌,
}
use clipboard.Pm.CallNr.{nr_pm_calls, pm_checkancestor}
use clipboard.Headers.{value_of, vfs_base, nr_vfs_calls, is_pm_call, is_vfs_call}
use clipboard.Headers.Calls.{pm_calls, vfs_calls}
use clipboard.Headers.CallsInstalled.{installed_pm_calls, installed_vfs_calls}
use clipboard.Headers.CallsBefore.{old_pm_calls, old_vfs_calls}
use clipboard.Headers.CallsInstalledBefore.{old_installed_pm_calls, old_installed_vfs_calls}
use clipboard.Headers.Lookup.{
  all_values, distinct, within, and_both, head_or_tail, value_of-append, all_values_sound,
  distinct_sound, within_sound,
}

abbrev pub calls : List (String × ℕ)
calls = pm_calls ++ vfs_calls

abbrev pub old_calls : List (String × ℕ)
old_calls = old_pm_calls ++ old_vfs_calls

abbrev pub installed_calls : List (String × ℕ)
installed_calls = installed_pm_calls ++ installed_vfs_calls

abbrev pub old_installed_calls : List (String × ℕ)
old_installed_calls = old_installed_pm_calls ++ old_installed_vfs_calls

calls_differ : distinct calls ≡ true
unfolding distinct all_values pm_calls vfs_calls
calls_differ = refl

all_kept : within old_calls calls ≡ true
unfolding within value_of pm_calls vfs_calls old_pm_calls old_vfs_calls
all_kept = refl

added : value_of calls "PM_CHECKANCESTOR" ≡ some pm_checkancestor
unfolding value_of pm_calls vfs_calls
added = refl

name_free : value_of old_calls "PM_CHECKANCESTOR" ≡ none
unfolding value_of old_pm_calls old_vfs_calls
name_free = refl

installed_same : installed_calls ≡ calls
unfolding installed_pm_calls installed_vfs_calls pm_calls vfs_calls
installed_same = refl

old_installed_same : old_installed_calls ≡ old_calls
unfolding old_installed_pm_calls old_installed_vfs_calls old_pm_calls old_vfs_calls
old_installed_same = refl

one_more : within calls (("PM_CHECKANCESTOR", pm_checkancestor) ∷ old_calls) ≡ true
unfolding within value_of pm_calls vfs_calls old_pm_calls old_vfs_calls
one_more = refl

new_number_free : all_values (λ v. not (v == pm_checkancestor)) old_calls ≡ true
unfolding all_values old_pm_calls old_vfs_calls
new_number_free = refl

abbrev fits_pm : ℕ → Bool
fits_pm v = is_pm_call v && ltb 0 v && ltb v nr_pm_calls

pm_calls_fit : all_values fits_pm pm_calls ≡ true
unfolding all_values pm_calls
pm_calls_fit = refl

abbrev fits_vfs : ℕ → Bool
fits_vfs v = is_vfs_call v && ltb v (vfs_base + nr_vfs_calls)

vfs_calls_fit : all_values fits_vfs vfs_calls ≡ true
unfolding all_values vfs_calls
vfs_calls_fit = refl

-- A call of the process manager or of VFS has a number after the patch exactly if it had that number
-- before, or is PM_CHECKANCESTOR with its number: the patch changes no number, drops no call, and
-- adds this one, whose name and number no call had. The headers as installed give every
-- name what the sources give it, before and after the patch.
pub call_numbers_patched :
    (name : String) (n : ℕ)
    → ((value_of calls name ≡ some n) ↔ (
        (value_of old_calls name ≡ some n)
        ⊎ ((name ≡ "PM_CHECKANCESTOR") × (n ≡ pm_checkancestor))))
      × (value_of installed_calls name ≡ value_of calls name)
      × (value_of old_installed_calls name ≡ value_of old_calls name)
      × (value_of old_calls "PM_CHECKANCESTOR" ≡ none)
      × ((other : String) → value_of old_calls other ≢ some pm_checkancestor)
call_numbers_patched name n = (
  (
    λ e.
        elim (head_or_tail "PM_CHECKANCESTOR" name pm_checkancestor old_calls n (
          within_sound calls (("PM_CHECKANCESTOR", pm_checkancestor) ∷ old_calls) name n one_more
            e)) [ inl (same, number) ↦ inr (sym same, sym number) | inr before ↦ inl before ],
    λ o. elim o [
      | inl before ↦ within_sound old_calls calls name n all_kept before
      | inr (same, number) ↦ ap (value_of calls) same ∙ added ∙ ap some (sym number)
    ],
  ),
  ap (λ ds. value_of ds name) installed_same,
  ap (λ ds. value_of ds name) old_installed_same,
  name_free,
  taken,
)
  where
    not_self : not (pm_checkancestor == pm_checkancestor) ≢ true
    not_self h = cc

    taken : (other : String) → value_of old_calls other ≢ some pm_checkancestor
    taken other o = not_self (
        all_values_sound (λ v. not (v == pm_checkancestor)) old_calls other pm_checkancestor
          new_number_free o)

-- After the patch no two calls have the same number. A call of the process manager has a number from 1
-- to NR_PM_CALLS - 1, by which IS_PM_CALL knows it; one of VFS has a number below its bound, by which
-- IS_VFS_CALL knows it.
pub call_numbers_distinct :
    (a b : String) (n : ℕ)
    → value_of calls a ≡ some n
    → (value_of calls b ≡ some n → a ≡ b)
      × (((value_of pm_calls a ≡ some n) × (is_pm_call n ≡ true) × (0 < n) × (n < nr_pm_calls))
          ⊎ ((value_of vfs_calls a ≡ some n)
              × (is_vfs_call n ≡ true)
              × (n < vfs_base + nr_vfs_calls)))
call_numbers_distinct a b n e = (
  distinct_sound calls a b n calls_differ e,
  elim (value_of-append pm_calls vfs_calls a n e) [
    | inl pm ↦
        let (below, in_pm) = and_both (all_values_sound fits_pm pm_calls a n pm_calls_fit pm) in
        inl (pm, (and_both below).0, ltb→lt 0 n (and_both below).1, ltb→lt n nr_pm_calls in_pm)
    | inr vfs ↦
        let (in_vfs, small) =
          and_both (all_values_sound fits_vfs vfs_calls a n vfs_calls_fit vfs) in
        inr (vfs, in_vfs, ltb→lt n (vfs_base + nr_vfs_calls) small)
  ],
)
