-- ===== src/Tests/Session.antt =====
-- The C library and the driver together.
use clipboard.Prelude.{
  ℕ, ◌≡◌, refl, ◌≢◌, inl, inr, arith, true, Run, done, abort, undefined, Returns, ℤ, pos, minus_one,
  to_uint, load, store, some, List, [], ◌∷◌, ◌++◌, take, length, replicate, update,
}
use clipboard.Memory.{no_blocks, malloc, block_at, memcpy}
use clipboard.Stack
use clipboard.Protocol.{set_bytes, set_of_bytes, word_bytes, word_at}
use clipboard.Clipboard.{
  Clipboard, ReadResult, clipboard_read, clipboard_write, dispatch, dispatch_copied,
  do_clipboard_set, do_clipboard_real_set,
}
use clipboard.Clipboard.Invariant.{IsValid}
use clipboard.Clipboard.View.{release, Item, sent_item, view}
use clipboard.Clipboard.View.Refine.{◌≈◌}
use clipboard.Libc.{
  Os, set_msg, expected_decompressed_size, decompressed_size_from, include_char, copy_to_clipboard,
  paste_from_clipboard, check_if_ancestor,
}
use clipboard.Pm.{do_checkifancestor, find_slot, climb, parent_of}
use clipboard.Tests.Processes.{family, result}
use clipboard.Session.{Device, accept, brings, sent_bytes}
use clipboard.Session.Copy.{Stored, copy_lem}
use clipboard.Session.Lock.{Pasted}
use clipboard.Session.Paste.{Permitted, paste_lem}
use clipboard.Session.Refused.{paste-Refused, paste_locked_out}
use clipboard.Tests.Machine.{
  two_places, fresh_state, fresh-IsValid, used_state, used-IsValid, text_abc, zeros, abc_msg,
  local_msg,
}

-- A machine whose only device is the driver, with the processes of `family`, one of which runs.
pub record World : Type 0 where
  pub clip : Clipboard
  pub pid : ℕ

abbrev pub answered : World → Run ReadResult → ℤ × List ℕ × World
answered w (done r) = (r.ret, sent_bytes r.sent, record w { clip = r.after })
answered w abort = (minus_one, [], w)
answered w undefined = (minus_one, [], w)

abbrev pub written : World → Run (ℤ × Clipboard) → ℤ × World
written w (done (ret, c)) = (ret, record w { clip = c })
written w abort = (minus_one, w)
written w undefined = (minus_one, w)

abbrev pub machine : Os World
machine = record {
  open_clipboard = λ a w. (pos 3, w);
  read = λ fd size w. answered w (clipboard_read accept local_msg size w.clip);
  write = λ fd bytes w. written w (clipboard_write two_places (brings bytes) (length bytes) w.clip);
  close = λ fd w. (pos 0, w);
  getpid = λ w. w.pid;
  syscall = λ n p q w. (result (do_checkifancestor 3 1 3 family p q), w);
}

abbrev pub driver : Device machine two_places
driver = record {
  clip = λ w. w.clip;
  is_open = λ fd w. true;
  local_msg = λ w. local_msg;
  length-local_msg = λ w. refl;
  open_gives = λ m w opens. refl;
  clip-open = λ m w. refl;
  getpid-open = λ m w. refl;
  read_reaches = λ fd size w r opened some_bytes small runs. rw runs (refl, refl, refl, refl, refl);
  write_reaches = λ fd bytes w ret c opened some_bytes runs. rw runs (refl, refl, refl, refl);
  syscall_aside = λ fd p q w opened. (refl, refl, refl);
  clip-close = λ fd w. refl;
}

abbrev pub abc_item : Item
abc_item = sent_item abc_msg

-- Process 7 copies "abc" to the fresh driver; process 9 pastes it.
abbrev pub before : World
before = record { clip = fresh_state; pid = 7 }

abbrev pub after_copy : World
after_copy = record {
  clip = record used_state {
    heap = update (update no_blocks 1 (some (0 ∷ 0 ∷ 0 ∷ []))) 1 (some text_abc);
  };
  pid = 7;
}

abbrev pub reader : World
reader = record { clip = used_state; pid = 9 }

abbrev pub junk : List ℕ
junk = zeros ++ (0 ∷ 0 ∷ 0 ∷ [])

abbrev pub ten : List ℕ
ten = replicate 10 1

pub may_read : (w : World) → Permitted machine two_places driver 7 9 99 w
unfolding check_if_ancestor do_checkifancestor find_slot climb parent_of load to_uint
may_read w e = omega arith

copy_lem_example :
    Returns
      (copy_to_clipboard machine junk text_abc 3 before)
      (Stored machine two_places driver (take 3 text_abc) before)
copy_lem_example =
    copy_lem machine two_places driver junk text_abc 3 1 before refl refl (omega arith)
      (omega arith) (omega arith) fresh-IsValid refl

paste_lem_example :
    Returns
      (paste_from_clipboard machine 99 ten 10 reader)
      (Pasted machine two_places driver 9 99 abc_item ten reader)
paste_lem_example =
    paste_lem machine two_places driver 99 abc_item ten 10 reader refl (omega arith) (omega arith)
      (omega arith) (omega arith) (omega arith) used-IsValid refl (refl, omega arith)
      (may_read reader) (omega arith)

paste-Refused_example :
    Returns
      (paste_from_clipboard machine 100 ten 10 reader)
      λ x. (x.0 ≡ to_uint minus_one) × (x.1 ≡ ten) × (x.2.clip ≡ used_state)
paste-Refused_example =
    paste-Refused machine two_places driver 100 ten 10 reader (inr (inl (omega arith)))

pub copied_99 : copy_to_clipboard machine junk text_abc 3 before ≡ done (99, after_copy)
unfolding to_uint load store copy_to_clipboard set_msg memcpy expected_decompressed_size
    decompressed_size_from include_char clipboard_write dispatch_copied dispatch do_clipboard_set
    do_clipboard_real_set malloc block_at set_bytes set_of_bytes word_bytes word_at Stack.is_empty
    Stack.top Stack.pop Stack.lower_bound
copied_99 = refl

pub not_refused : 99 ≢ to_uint minus_one
unfolding to_uint
not_refused e = omega arith

abbrev pub next_reader : World
next_reader = record after_copy { pid = 9 }

-- Five bytes that are announced as one: a buffer of the announced size does not hold them.
five_zeros : expected_decompressed_size (48 ∷ 48 ∷ 48 ∷ 48 ∷ 48 ∷ []) ≡ 1
unfolding expected_decompressed_size decompressed_size_from include_char
five_zeros = refl

-- A buffer of two bytes for a text of three.
paste_locked_out_example : Returns (paste_from_clipboard machine 99 ten 2 reader) λ x.
    (x.0 ≡ to_uint minus_one)
    × (x.1 ≡ ten)
    × IsValid x.2.clip
    × (view x.2.clip ≈ release 9 (view used_state))
paste_locked_out_example =
    paste_locked_out machine two_places driver 99 abc_item ten 2 reader refl (omega arith)
      (omega arith) (omega arith) (omega arith) (omega arith) used-IsValid refl refl
      (may_read reader)
