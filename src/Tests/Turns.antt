-- ===== src/Tests/Turns.antt =====
-- Processes that take turns at the driver.
use clipboard.Prelude.{
  load, store, ℕ, ◌≡◌, refl, none, some, List, ◌++◌, drop, update, arith, ℤ, pos, minus_one, done,
  Returns,
}
use clipboard.Protocol.{
  GetMsg, LockMsg, lock_size, encode_pid, lock_bytes, lock_of_bytes, get_bytes,
}
use clipboard.Clipboard.{
  open_device, write_device, ok, do_clipboard_lock, lock_slot, unlock_held, get_lock_id, find_lock,
  handle, clipboard_open, clipboard_read, clipboard_write, dispatch, dispatch_copied,
}
use clipboard.Clipboard.Invariant.{IsValid}
use clipboard.Clipboard.View.{Item, view}
use clipboard.Clipboard.View.Refine.{◌≈◌}
use clipboard.Clipboard.Turns.{Others, idle, turn, lock_keeps_text}
use clipboard.Tests.Machine.{
  two_places, used_state, used-IsValid, text_abc, lock_99, held_state, local_msg,
}

abbrev accepts : List ℕ → ℤ
accepts bytes = pos 0

-- Process 5 asks for the entry that process 9 has locked.
abbrev lock_5 : LockMsg
lock_5 = record { pid = 5; id = 99; buffer_len = 10 }

abbrev brings_lock : ℕ → ℤ × List ℕ
brings_lock n = (pos 0, lock_bytes lock_5)

abbrev abc_item : Item
abc_item = record { text = text_abc; decompressed_len = 3; owner = 7; holder = none }

granted : do_clipboard_lock lock_99 used_state ≡ done (ok, held_state)
unfolding do_clipboard_lock lock_slot load unlock_held get_lock_id find_lock store
granted = refl

refused :
    handle two_places (write_device brings_lock lock_size) held_state ≡ done (minus_one, held_state)
unfolding handle clipboard_write dispatch_copied dispatch do_clipboard_lock lock_slot load
    lock_of_bytes lock_bytes unlock_held get_lock_id find_lock
refused = refl

others : Others two_places 9 held_state held_state
unfolding handle lock_of_bytes lock_bytes clipboard_open
others =
    turn open_device tt tt refl (
      turn (write_device brings_lock lock_size) (λ e. omega arith, λ e. cc) (λ e f. cc) refused
        idle)

lock_keeps_text_example : Returns (clipboard_read accepts local_msg (encode_pid 9) held_state) λ r.
    (answer : GetMsg) × (r.sent ≡ some (get_bytes answer))
    × (r.ret ≡ pos 0)
    × (answer.buffer_len ≡ 3)
    × (answer.buffer ≡ text_abc ++ drop 3 local_msg.buffer)
    × IsValid r.after
    × (view r.after ≈ update (view held_state) 99 none)
lock_keeps_text_example =
    lock_keeps_text two_places lock_99 abc_item accepts local_msg used-IsValid (omega arith)
      (omega arith) refl refl granted others
