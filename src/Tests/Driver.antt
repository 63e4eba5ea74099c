-- ===== src/Tests/Driver.antt =====
-- The driver.
use clipboard.Prelude.{
  ℕ, ◌<◌, ◌≡◌, refl, ◌≢◌, ◌⊎◌, true, false, none, some, List, ◌++◌, update, drop, length, arith, ℤ,
  pos, minus_one, done, Returns,
}
use clipboard.Protocol.{GetMsg, buf_max_count, encode_pid, lock_bytes, get_bytes}
use clipboard.Clipboard.{
  clipboard_init, Clipboard, read_device, ok, clipboard_read, do_clipboard_set, do_clipboard_get,
  do_clipboard_lock, get_lock_id, handle, find_lock,
}
use clipboard.Clipboard.Invariant.{IsValid}
use clipboard.Clipboard.Init.{clipboard_init_lem}
use clipboard.Clipboard.View.{Item, view, sent_item, release, hold, is_free_for}
use clipboard.Clipboard.View.Refine.{◌≈◌, set_refines, get_refines, lock_refines}
use clipboard.Clipboard.Requests.{read_text}
use clipboard.Clipboard.Log.{clipboard_log, lines_of, clipboard_log_lem}
use clipboard.Clipboard.Reach.{Reach, Reach-total}
use clipboard.Tests.Machine.{
  two_places, fresh_state, fresh-IsValid, abc_msg, abc-IsSound, used_state, used-IsValid, lock_99,
  held_state, held-IsValid, local_msg,
}

get_lock_id_9 : get_lock_id 9 held_state ≡ pos 99
unfolding get_lock_id find_lock
get_lock_id_9 = refl

set_refines_example :
    (((i : ℕ) → i < buf_max_count → (it : Item) × (view fresh_state i ≡ some it))
      × (do_clipboard_set two_places abc_msg fresh_state ≡ done (minus_one, fresh_state)))
    ⊎ ((id : ℕ) × (d : Clipboard) × (id < buf_max_count)
        × (view fresh_state id ≡ none)
        × (do_clipboard_set two_places abc_msg fresh_state ≡ done (pos id, d))
        × IsValid d
        × (view d ≈ update (view fresh_state) id (some (sent_item abc_msg))))
set_refines_example = set_refines two_places 1 abc_msg fresh-IsValid abc-IsSound refl

lock_refines_example :
    ((d : Clipboard) × (is_free_for 10 (release 9 (view used_state) 99) ≡ true)
      × (do_clipboard_lock lock_99 used_state ≡ done (ok, d))
      × IsValid d
      × (view d ≈ hold 99 9 (release 9 (view used_state))))
    ⊎ ((d : Clipboard) × (is_free_for 10 (release 9 (view used_state) 99) ≡ false)
        × (do_clipboard_lock lock_99 used_state ≡ done (minus_one, d))
        × IsValid d
        × (view d ≈ release 9 (view used_state)))
lock_refines_example = lock_refines lock_99 used-IsValid (omega arith)

get_refines_example :
    ((id : ℕ) × (it : Item) × (msg' : GetMsg) × (d : Clipboard) × (id < buf_max_count)
      × (view held_state id ≡ some it)
      × (it.holder ≡ some 9)
      × (do_clipboard_get local_msg 9 held_state ≡ done (ok, msg', d))
      × (msg'.buffer_len ≡ length it.text)
      × (msg'.decompressed_len ≡ it.decompressed_len)
      × (msg'.buffer ≡ it.text ++ drop (length it.text) local_msg.buffer)
      × IsValid d
      × (view d ≈ update (view held_state) id none))
    ⊎ (((i : ℕ) (it : Item) → i < buf_max_count → view held_state i ≡ some it → it.holder ≢ some 9)
        × (do_clipboard_get local_msg 9 held_state ≡ done (minus_one, local_msg, held_state)))
get_refines_example = get_refines local_msg 9 held-IsValid refl

abbrev accepts : List ℕ → ℤ
accepts bytes = pos 0

read_text_example :
    ((id : ℕ) × (it : Item) × (msg' : GetMsg) × (d : Clipboard) × (id < buf_max_count)
      × (view held_state id ≡ some it)
      × (it.holder ≡ some 9)
      × (clipboard_read accepts local_msg (encode_pid 9) held_state
          ≡ done (record { ret = pos 0; sent = some (get_bytes msg'); after = d }))
      × (msg'.buffer_len ≡ length it.text)
      × (msg'.decompressed_len ≡ it.decompressed_len)
      × (msg'.buffer ≡ it.text ++ drop (length it.text) local_msg.buffer)
      × IsValid d
      × (view d ≈ update (view held_state) id none))
    ⊎ (((i : ℕ) (it : Item) → i < buf_max_count → view held_state i ≡ some it → it.holder ≢ some 9)
        × (clipboard_read accepts local_msg (encode_pid 9) held_state
            ≡ done (record { ret = pos 1; sent = none; after = held_state })))
read_text_example = read_text accepts local_msg 9 held-IsValid refl (omega arith)

abbrev brings_lock : ℕ → ℤ × List ℕ
brings_lock n = (pos 0, lock_bytes lock_99)

clipboard_init_lem_example :
    Returns
      (clipboard_init fresh_state)
      λ d. IsValid d × ((i : ℕ) → i < buf_max_count → view d i ≡ none)
clipboard_init_lem_example = clipboard_init_lem fresh_state refl

-- The driver started, then asked for the text of a process that holds nothing.
started : Reach two_places (clipboard_init_lem fresh_state refl).0
started = Reach.start fresh_state refl (clipboard_init_lem fresh_state refl).1

Reach-total_example :
    Returns
      (handle two_places
        (read_device accepts local_msg (encode_pid 9))
        (clipboard_init_lem fresh_state refl).0)
      λ r. IsValid r.1
Reach-total_example = Reach-total (read_device accepts local_msg (encode_pid 9)) started refl

clipboard_log_lem_example :
    clipboard_log used_state ≡ done (lines_of buf_max_count 0 (view used_state))
clipboard_log_lem_example = clipboard_log_lem used_state used-IsValid
