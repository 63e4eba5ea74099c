-- ===== src/Session/Whole.antt =====
-- A copy and a paste, one after the other.
use clipboard.Prelude.{
  ℕ, ◌^◌, ◌≤◌, ◌<◌, ◌≡◌, refl, inl, inr, arith, false, some, List, ◌++◌, take, drop, length,
  take_whole, done_injective, subst, update_self, ◌≢◌, ap, sym, ◌∙◌, done, Returns, is_negative,
  minus_one, to_uint,
}
use clipboard.Memory.{Allocator}
use clipboard.Protocol.{entry_len_limit, buf_max_count}
use clipboard.Clipboard.Invariant.{IsValid}
use clipboard.Clipboard.View.{view}
use clipboard.Libc.{
  Os, o_rdwr, o_wronly, expected_decompressed_size, copy_to_clipboard, paste_from_clipboard,
}
use clipboard.Session.{Device}
use clipboard.Session.Copy.{copied, Stored, copy_lem}
use clipboard.Session.Paste.{Permitted, paste_lem}

module _ {W : Type 0} (os : Os W) (a : Allocator) (dev : Device os a) where
  -- What a copy that got a number leaves in the store.
  pub copy_seen :
      (junk text : List ℕ) (p id : ℕ) (w w' : W)
      → is_negative (os.open_clipboard o_wronly w).0 ≡ false
      → length junk ≡ entry_len_limit
      → length text ≤ entry_len_limit
      → os.getpid w < 2 ^ 31
      → IsValid (dev.clip w)
      → a.place (dev.clip w).heap (length text) ≡ some p
      → copy_to_clipboard os junk text (length text) w ≡ done (id, w')
      → id ≢ to_uint minus_one
      → (id < buf_max_count)
        × IsValid (dev.clip w')
        × (view (dev.clip w') id ≡ some (copied (os.getpid w) text))
  copy_seen junk text p id w w' opens whole fits small valid placed runs got =
      let (x, runs', stored) =
        copy_lem os a dev junk text (length text) p w opens whole fits (omega arith) (omega arith)
          valid placed in
      let now : x ≡ (id, w') = done_injective (sym runs' ∙ runs) in
      let all : take (length text) text ≡ text = take_whole (length text) text (omega arith) in
      elim (subst (Stored os a dev text w) now (subst (λ t. Stored os a dev t w x) all stored)) [
        | inl (refused, _, _) ↦ absurd (got refused)
        | inr (l, valid', free, after) ↦ (
          l,
          valid',
          after id l ∙ update_self (view (dev.clip w)) id (some (copied (os.getpid w) text)),
        )
      ]

  -- A process copies a text of at most 1024 bytes, on a valid state, with room in memory, while the
  -- device opens, and gets a number `id` other than 0 and -1. Then another process, in a system `v`
  -- where the driver's state is as the copy left it, pastes that number: its pid is below 2^30, the
  -- process manager lets it read what the first one wrote, the device opens, and it has a buffer for
  -- the text in both forms. It gets exactly this text at the front of its buffer, and 0 as the
  -- result; the driver's state stays valid.
  pub copy_paste :
      (junk text : List ℕ) (p id : ℕ) (w w' v : W) (buffer : List ℕ) (buffer_len : ℕ)
      → is_negative (os.open_clipboard o_wronly w).0 ≡ false
      → length junk ≡ entry_len_limit
      → length text ≤ entry_len_limit
      → os.getpid w < 2 ^ 31
      → IsValid (dev.clip w)
      → a.place (dev.clip w).heap (length text) ≡ some p
      → copy_to_clipboard os junk text (length text) w ≡ done (id, w')
      → id ≢ to_uint minus_one
      → 0 < id
      → dev.clip v ≡ dev.clip w'
      → is_negative (os.open_clipboard o_rdwr v).0 ≡ false
      → os.getpid v < 2 ^ 30
      → buffer_len < 2 ^ 32
      → Permitted os a dev (os.getpid w) (os.getpid v) id v
      → expected_decompressed_size text ≤ buffer_len
      → length text ≤ length buffer
      → Returns
          (paste_from_clipboard os id buffer buffer_len v)
          λ y. (y.0 ≡ 0) × (y.1 ≡ text ++ drop (length text) buffer) × IsValid (dev.clip y.2)
  copy_paste junk text p id w w' v buffer buffer_len opens whole fits small valid placed runs got
        some_id same opens' small' word permitted decompressed room =
      let (l, valid', seen) =
        copy_seen junk text p id w w' opens whole fits small valid placed runs got in
      let (y, pastes, (zero_ret, text_is, valid'', _)) =
        paste_lem os a dev id (copied (os.getpid w) text) buffer buffer_len v opens' some_id l
          small' word small (subst IsValid (sym same) valid') (ap (λ c. view c id) same ∙ seen)
          (refl, decompressed) permitted room in
      (y, pastes, (zero_ret, text_is, valid''))
