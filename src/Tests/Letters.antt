-- ===== src/Tests/Letters.antt =====
-- A safe copy and a safe paste, over the driver.
use clipboard.Prelude.{
  ℕ, ◌≡◌, refl, arith, List, replicate, ℤ, pos, Run, done, abort, undefined, Returns, inr, load,
  store, to_uint, to_int,
}
use clipboard.Memory.{malloc, block_at, memcpy}
use clipboard.Stack
use clipboard.Protocol.{set_bytes, set_of_bytes, word_bytes, word_at}
use clipboard.Clipboard.{
  clipboard_write, dispatch, dispatch_copied, do_clipboard_set, do_clipboard_real_set,
}
use clipboard.Clipboard.Invariant.{IsValid}
use clipboard.Compress.Place.{compress_at, compress_from_at, push_char_count_at, store_at}
use clipboard.Cipher.{
  cipher, cipher_from, normalize_key, normalize_from, finish_push_number, shift_char, char_base,
  rem_alphabet,
}
use clipboard.Libc.{
  set_msg, expected_decompressed_size, decompressed_size_from, include_char, copy_to_clipboard,
}
use clipboard.Safe.{copy_safely, paste_safely}
use clipboard.Safe.Paste.{padded}
use clipboard.Safe.Family.{descendant_pastes_safely}
use clipboard.Tests.Family.{manager, child}
use clipboard.Tests.Processes.{family-IsTable}
use clipboard.Tests.Machine.{two_places, fresh-IsValid}
use clipboard.Tests.Session.{World, machine, driver, before, junk}
use clipboard.Tests.Text.{zoo, key_b25, key_b25-IsKey, zoo-AreLetters}
use clipboard.Tests.Safe.{short_zoo}

abbrev after : Run (ℤ × ℕ × World) → World
after (done x) = x.2
after abort = before
after undefined = before

-- The system once process 7 has copied.
abbrev sent : World
sent = after (copy_safely machine junk zoo key_b25 before)

copied_safely : copy_safely machine junk zoo key_b25 before ≡ done (pos 99, 3, sent)
unfolding to_uint to_int load store copy_safely cipher cipher_from normalize_key normalize_from
    finish_push_number shift_char char_base rem_alphabet compress_at compress_from_at
    push_char_count_at store_at copy_to_clipboard set_msg memcpy expected_decompressed_size
    decompressed_size_from include_char clipboard_write dispatch_copied dispatch do_clipboard_set
    do_clipboard_real_set malloc block_at set_bytes set_of_bytes word_bytes word_at Stack.is_empty
    Stack.top Stack.pop Stack.lower_bound
copied_safely = refl

abbrev pasting : World
pasting = record sent { pid = 9 }

abbrev ones : List ℕ
ones = replicate 10 1

descendant_pastes_safely_example :
    Returns
      (paste_safely machine 4096 (replicate 1024 0) 99 ones 10 key_b25 pasting)
      λ y. (y.0 ≡ 0) × (y.1 ≡ padded zoo ones 10) × IsValid y.2.clip
descendant_pastes_safely_example =
    descendant_pastes_safely machine manager two_places driver junk key_b25 zoo (replicate 1024 0)
      ones 99 3 4096 10 before sent pasting key_b25-IsKey (omega arith) (omega arith) zoo-AreLetters
      (omega arith) short_zoo refl refl (omega arith) fresh-IsValid (λ n l. (1, refl)) copied_safely
      (omega arith) refl refl (omega arith) family-IsTable (child pasting) (omega arith)
      (omega arith) refl (inr (replicate 1020 0, refl)) (omega arith) (omega arith)
