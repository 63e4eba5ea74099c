-- ===== src/Tests/Simulator.antt =====
-- The simulator of the tests of compress.asm.
use clipboard.Prelude.{
  ℕ, ◌∙◌, ◌≡◌, refl, arith, List, [], ◌∷◌, ◌++◌, drop, length, replicate, pos, minus_one, to_uint,
  Run, done, abort, undefined, ◌>>=◌, Returns, load, store, ap, sym, done_injective,
}
use clipboard.Memory.{no_blocks}
use clipboard.Stack
use clipboard.Simulator.{
  Entry, empty, Clipboard, ReadMsg, WriteMsg, Message, read_msg, write_msg, clipboard_init,
  empty_slots, copy_to_clipboard, paste_from_clipboard,
}
use clipboard.Simulator.Invariant.{IsValid}
use clipboard.Simulator.Shelf.{left}
use clipboard.Simulator.Runs.{AllSound, serve_all, given, down_from, numbers_run_out}
use clipboard.Simulator.Session.{copy_and_pastes}
use clipboard.Tests.Machine.{two_places, text_abc}

abbrev blank : Entry
blank = record { buffer_len = 0; buffer = 0; decompressed_len = 0; in_use = empty }

-- CLIPBOARD once it is initialised.
abbrev ready : Clipboard
ready = record {
  entries = λ i. blank;
  available_entries = record { value = λ k. k; current = 100 };
  heap = no_blocks;
}

ready-IsValid : IsValid ready
ready-IsValid = record {
  fresh = record { within = omega arith; number = λ k l. refl; unused = λ k l. refl };
  buffers = record {
    owned = λ i l b. cc;
    apart = λ i j li lj bi bj p. cc;
    no_leak = λ p b live. cc;
  };
}

abbrev sent : WriteMsg
sent = record { buffer = text_abc; buffer_len = 3; decompressed_len = 3 }

abbrev wanted : ReadMsg
wanted = record { buffer = replicate 10 1; buffer_len = 10; id = 99 }

-- A static CLIPBOARD before it is initialised.
abbrev zeroed : Clipboard
zeroed = record ready { available_entries = record { value = λ k. 0; current = 0 } }

abbrev state_of : Run Clipboard → Clipboard
state_of (done c) = c
state_of abort = zeroed
state_of undefined = zeroed

inits : clipboard_init zeroed ≡ done (state_of (clipboard_init zeroed))
unfolding clipboard_init empty_slots load store Stack.init Stack.init_values Stack.upper_bound
inits = refl

no_blocks_yet : (state_of (clipboard_init zeroed)).heap ≡ no_blocks
unfolding clipboard_init empty_slots load store Stack.init Stack.init_values Stack.upper_bound
no_blocks_yet = refl

abbrev messages : List Message
messages = write_msg sent ∷ read_msg wanted ∷ []

messages-AllSound :
    (c : Clipboard) → clipboard_init zeroed ≡ done c → AllSound two_places messages c
messages-AllSound c e = (
  (
    omega arith,
    (
      1,
      ap (λ h. two_places.place h 3)
          (ap (λ (d : Clipboard). d.heap) (done_injective (sym e ∙ inits)) ∙ no_blocks_yet),
    ),
  ),
  (λ ret back d runs. ((omega arith, omega arith), (λ ret' back' d' runs'. tt))),
)

numbers_run_out_example : Returns (clipboard_init zeroed >>= serve_all two_places messages) λ x.
    IsValid x.1 × (length x.0 ≡ 2) × (given messages x.0 ++ down_from (left x.1) ≡ down_from 100)
numbers_run_out_example = numbers_run_out two_places messages zeroed refl messages-AllSound

abbrev ten : List ℕ
ten = replicate 10 1

copy_and_pastes_example : Returns (copy_to_clipboard two_places text_abc 3 ready) λ x.
    (x.0 ≡ pos 99)
    × IsValid x.1
    × (paste_from_clipboard two_places 99 ten 2 x.1 ≡ done (to_uint minus_one, ten, 2, x.1))
    × Returns (paste_from_clipboard two_places 99 ten 10 x.1) λ y.
      (y.0 ≡ 0)
      × (y.1 ≡ text_abc ++ drop 3 ten)
      × (y.2 ≡ 10)
      × IsValid y.3
      × (paste_from_clipboard two_places 99 ten 5 y.3 ≡ done (to_uint minus_one, ten, 5, y.3))
copy_and_pastes_example =
    copy_and_pastes two_places text_abc ten ten ten 2 10 5 99 1 ready ready-IsValid refl refl
      (omega arith) (omega arith) (omega arith) (omega arith) (omega arith)
