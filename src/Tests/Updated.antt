-- ===== src/Tests/Updated.antt =====
-- A copy, a live update and a paste.
use clipboard.Prelude.{
  ◌≡◌, refl, arith, some, none, [], ◌∷◌, ◌++◌, drop, ℤ, Returns, update_twice, ap, sym, subst,
}
use clipboard.Memory.{Heap, no_blocks}
use clipboard.Protocol.{buf_max_count}
use clipboard.Clipboard.{Clipboard}
use clipboard.Clipboard.Invariant.{IsValid}
use clipboard.Libc.{
  expected_decompressed_size, decompressed_size_from, include_char, paste_from_clipboard,
}
use clipboard.LiveUpdate.{sef_init_lu, sef_cb_lu_state_save, sef_cb_init}
use clipboard.LiveUpdate.Restore.{Room}
use clipboard.LiveUpdate.Whole.{live_update_lem}
use clipboard.Session.Updated.{copy_update_paste}
use clipboard.Tests.Machine.{
  two_places, fresh_state, fresh-IsValid, used_state, used-IsValid, text_abc,
}
use clipboard.Tests.Processes.{family-IsTable}
use clipboard.Tests.Session.{
  World, machine, driver, before, after_copy, junk, ten, copied_99, not_refused,
}
use clipboard.Tests.Family.{manager, child}
use clipboard.Tests.Update.{Names, names, names-AllPublished, used-Room}

copied_is : used_state ≡ after_copy.clip
copied_is =
    ap (λ h. record used_state { heap = h })
      (sym (update_twice no_blocks 1 (some (0 ∷ 0 ∷ 0 ∷ [])) (some text_abc)))

copied-IsValid : IsValid after_copy.clip
copied-IsValid = subst IsValid copied_is used-IsValid

copied-Room : Room two_places after_copy.clip buf_max_count 0 no_blocks
copied-Room =
    subst (λ c. Room two_places c buf_max_count 0 no_blocks) copied_is
      (used-Room buf_max_count 0 refl)

abbrev nothing_saved : Names
nothing_saved k = none

-- The saved state, and the new instance.
saving :
    Returns
      (sef_cb_lu_state_save names 4096 after_copy.clip nothing_saved)
      λ s. Returns (sef_cb_init names two_places 4096 sef_init_lu fresh_state s.0) λ y. IsValid y.1
saving =
    let (s, saves, (y, starts, good)) =
      live_update_lem names two_places after_copy.clip copied-IsValid 4096 4096 nothing_saved
        fresh_state refl (names-AllPublished 4096 after_copy.clip nothing_saved) refl copied-Room in
    (s, saves, (y, starts, good.1))

abbrev saved : Names × Heap
saved = saving.0

abbrev new_instance : ℤ × Clipboard × Names
new_instance = saving.2.0

-- Process 9, once the new instance runs.
abbrev new_reader : World
new_reader = record { clip = new_instance.1; pid = 9 }

copy_update_paste_example :
    Returns
      (paste_from_clipboard machine 99 ten 10 new_reader)
      λ z. (z.0 ≡ 0) × (z.1 ≡ text_abc ++ drop 3 ten) × IsValid z.2.clip
unfolding expected_decompressed_size decompressed_size_from include_char
copy_update_paste_example =
    copy_update_paste machine manager two_places driver names junk text_abc 1 99 before after_copy
      new_reader fresh_state nothing_saved saved new_instance ten 10 4096 4096 refl refl
      (omega arith) (omega arith) fresh-IsValid refl copied_99 not_refused (omega arith) refl
      (names-AllPublished 4096 after_copy.clip nothing_saved) refl copied-Room saving.1 saving.2.1
      refl refl (omega arith) (omega arith) family-IsTable (child new_reader) (omega arith)
      (omega arith)
