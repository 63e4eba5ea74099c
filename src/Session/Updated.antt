-- ===== src/Session/Updated.antt =====
-- A copy, a live update of the driver, and a paste (what test/tdown.c tries by hand).
use clipboard.Prelude.{
  ℕ, ◌^◌, ◌≤◌, ◌<◌, ◌≡◌, refl, ◌≢◌, false, some, List, ◌++◌, drop, length, ℤ, done, done_injective,
  Returns, is_negative, minus_one, to_uint, ap, sym, subst, ◌∙◌,
}
use clipboard.Memory.{Allocator, Heap, no_blocks}
use clipboard.Protocol.{entry_len_limit, buf_max_count}
use clipboard.Clipboard.{Clipboard}
use clipboard.Clipboard.Invariant.{IsValid}
use clipboard.Clipboard.View.{view}
use clipboard.Clipboard.View.Refine.{◌≈◌}
use clipboard.Libc.{
  Os, o_rdwr, o_wronly, expected_decompressed_size, copy_to_clipboard, paste_from_clipboard,
}
use clipboard.LiveUpdate.{DataStore, sef_init_lu, sef_cb_lu_state_save, sef_cb_init}
use clipboard.LiveUpdate.Save.{AllPublished}
use clipboard.LiveUpdate.Restore.{Room}
use clipboard.LiveUpdate.Whole.{live_update_lem}
use clipboard.Session.{Device}
use clipboard.Session.Copy.{copied}
use clipboard.Session.Paste.{asked, paste_lem}
use clipboard.Session.Family.{Manager, Tabled, Family, Family-Permitted}
use clipboard.Session.Whole.{copy_seen}

-- The state of the new instance, where both sides of the update end with a value.
updated :
    {D : Type 0} (ds : DataStore D) (a : Allocator) (from to : ℕ) (c r : Clipboard) (d : D)
    (s : D × Heap) (y : ℤ × Clipboard × D)
    → IsValid c
    → to ≡ from
    → AllPublished ds from c d
    → r.heap ≡ no_blocks
    → Room a c buf_max_count 0 no_blocks
    → sef_cb_lu_state_save ds from c d ≡ done s
    → sef_cb_init ds a to sef_init_lu r s.0 ≡ done y
    → IsValid y.1 × (view y.1 ≈ view c)
updated {D} ds a from to c r d s y valid same_place fits clean room saves starts =
    let (s', saves', (y', starts', (_, valid', seen))) =
      live_update_lem ds a c valid from to d r same_place fits clean room in
    let same_store : s' ≡ s = done_injective (sym saves' ∙ saves) in
    let same : y' ≡ y = done_injective (
      sym starts'
      ∙ ap (λ (z : D × Heap). sef_cb_init ds a to sef_init_lu r z.0) same_store
      ∙ starts) in
    subst (λ z. IsValid z.1 × (view z.1 ≈ view c)) same (valid', seen)

module _ {W D : Type 0} (os : Os W) (pm : Manager os) (a : Allocator) (dev : Device os a)
    (ds : DataStore D) where
  -- A process copies a text of at most 1024 bytes, on a valid state of the driver, with room in
  -- memory, while the device opens, and gets a number `id` other than 0 and -1. Then the driver saves
  -- its state, and a new instance, which has no blocks yet and room in its memory, is started by a
  -- live update; the data store takes CLIPBOARD and each text, and the stack's array has the same
  -- address in both instances. Then a process that is the first or its descendant, in a system `v`
  -- where the driver's state is that of the new instance, pastes that number. Its pid is below 2^30,
  -- the process table is well formed when the process manager is asked, the device opens, and it has
  -- a buffer for the text in both forms. It gets exactly this text at the front of its buffer, and 0
  -- as the result; the driver's state stays valid.
  pub copy_update_paste :
      (junk text : List ℕ) (p id : ℕ) (w w' v : W) (r : Clipboard) (d : D) (s : D × Heap)
      (y : ℤ × Clipboard × D) (buffer : List ℕ) (buffer_len from to : ℕ)
      → is_negative (os.open_clipboard o_wronly w).0 ≡ false
      → length junk ≡ entry_len_limit
      → length text ≤ entry_len_limit
      → os.getpid w < 2 ^ 31
      → IsValid (dev.clip w)
      → a.place (dev.clip w).heap (length text) ≡ some p
      → copy_to_clipboard os junk text (length text) w ≡ done (id, w')
      → id ≢ to_uint minus_one
      → 0 < id
      → to ≡ from
      → AllPublished ds from (dev.clip w') d
      → r.heap ≡ no_blocks
      → Room a (dev.clip w') buf_max_count 0 no_blocks
      → sef_cb_lu_state_save ds from (dev.clip w') d ≡ done s
      → sef_cb_init ds a to sef_init_lu r s.0 ≡ done y
      → dev.clip v ≡ y.1
      → is_negative (os.open_clipboard o_rdwr v).0 ≡ false
      → os.getpid v < 2 ^ 30
      → buffer_len < 2 ^ 32
      → Tabled os pm (asked os a dev id v)
      → Family os pm (os.getpid w) (os.getpid v) (asked os a dev id v)
      → expected_decompressed_size text ≤ buffer_len
      → length text ≤ length buffer
      → Returns
          (paste_from_clipboard os id buffer buffer_len v)
          λ z. (z.0 ≡ 0) × (z.1 ≡ text ++ drop (length text) buffer) × IsValid (dev.clip z.2)
  copy_update_paste junk text p id w w' v r d s y buffer buffer_len from to opens whole fits small
        valid placed runs got some_id same_place stores clean moves saves starts same opens' small'
        word tabled family decompressed room =
      let (l, valid', seen) =
        copy_seen os a dev junk text p id w w' opens whole fits small valid placed runs got in
      let (valid_y, seen_y) =
        updated ds a from to (dev.clip w') r d s y valid' same_place stores clean moves saves
          starts in
      let (z, pastes, (zero_ret, text_is, valid_z, _)) =
        paste_lem os a dev id (copied (os.getpid w) text) buffer buffer_len v opens' some_id l
          small' word small (subst IsValid (sym same) valid_y)
          (ap (λ c. view c id) same ∙ seen_y id l ∙ seen) (refl, decompressed)
          (Family-Permitted os pm a dev (os.getpid w) (os.getpid v) id v tabled family) room in
      (z, pastes, (zero_ret, text_is, valid_z))
