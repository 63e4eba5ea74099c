-- ===== src/Tests/Machine.antt =====
-- Concrete states of the driver for the tests.
use clipboard.Prelude.{ℕ, ◌≡◌, refl, ◌≢◌, arith, Option, none, some, List, [], ◌∷◌, ◌++◌, replicate}
use clipboard.Memory.{Heap, Allocator, no_blocks}
use clipboard.Protocol.{SetMsg, GetMsg, LockMsg}
use clipboard.Clipboard.{Entry, empty, locked, Clipboard, lock_by}
use clipboard.Clipboard.Invariant.{IsValid, occupied}
use clipboard.Clipboard.Invariant.Slots.{FreeList-take, FreeList-keep}
use clipboard.Clipboard.Invariant.Blocks.{Buffers-fill, Buffers-keep}
use clipboard.Clipboard.Invariant.Locks.{OneLock-unlocked, OneLock-lock}
use clipboard.Clipboard.Fill.{filled, filled_entry, IsSound}
use clipboard.Clipboard.Lock.{locked_state}

-- Two addresses serve the tests.
abbrev pub second : Option (List ℕ) → Option ℕ
second none = some 2
second (some b) = none

abbrev pub first : Option (List ℕ) → Heap → Option ℕ
first none h = some 1
first (some b) h = second (h 2)

pub first-fresh : (h : Heap) (p : ℕ) → first (h 1) h ≡ some p → h p ≡ none
first-fresh h p e = ground arith

abbrev pub two_places : Allocator
two_places = record { place = λ h n. first (h 1) h; fresh = λ h n p e. first-fresh h p e }

abbrev pub blank : Entry
blank = record {
  buffer_len = 0;
  decompressed_len = 0;
  source_pid = 0;
  locking_pid = 0;
  buffer = 0;
  in_use = empty;
}

-- CLIPBOARD after a fresh start.
abbrev pub fresh_state : Clipboard
fresh_state = record {
  entries = λ i. blank;
  available_entries = record { value = λ k. k; current = 100 };
  heap = no_blocks;
}

pub fresh-IsValid : IsValid fresh_state
unfolding occupied
fresh-IsValid = record {
  free_list = record {
    within = refl;
    index = λ k l. l;
    free = λ k l. refl;
    once = λ k l less h. omega arith;
    complete = λ id l e. (id, l, refl);
  };
  buffers = record {
    owned = λ id l o. absurd (o refl);
    apart = λ i j li lj oi oj p. absurd (oi refl);
    no_leak = λ p b live. cc;
  };
  one_lock = λ pid i j li lj a b. cc (a.0);
}

abbrev pub zeros : List ℕ
zeros = replicate 1021 0

abbrev pub text_abc : List ℕ
text_abc = 97 ∷ 98 ∷ 99 ∷ []

-- The text "abc" of process 7.
abbrev pub abc_msg : SetMsg
abc_msg = record { pid = 7; buffer_len = 3; decompressed_len = 3; buffer = text_abc ++ zeros }

pub abc-IsSound : IsSound abc_msg
abc-IsSound = (refl, omega arith)

-- It stands in slot 99, its block at address 1.
abbrev pub used_state : Clipboard
used_state = filled 99 1 abc_msg fresh_state

abbrev used_entry : Entry
used_entry = filled_entry abc_msg 1 blank

pub used-IsValid : IsValid used_state
used-IsValid = record {
  free_list = FreeList-take fresh-IsValid.free_list used_entry (λ e. omega arith) (λ e. cc);
  buffers =
      Buffers-fill fresh-IsValid.buffers 99 used_entry text_abc (omega arith) refl (λ e. cc) refl
        refl (omega arith);
  one_lock = OneLock-unlocked fresh_state.entries fresh-IsValid.one_lock 99 used_entry (λ e. cc);
}

abbrev pub lock_99 : LockMsg
lock_99 = record { pid = 9; id = 99; buffer_len = 10 }

-- Process 9 has locked it.
abbrev pub held_state : Clipboard
held_state = locked_state lock_99 used_state

none_locked : (i : ℕ) → (used_state.entries i).in_use ≢ locked
none_locked i e = ground arith

pub held-IsValid : IsValid held_state
held-IsValid = record {
  free_list =
      FreeList-keep used-IsValid.free_list 99 (lock_by 9 used_entry) (omega arith) (λ e. cc)
        (λ e. cc);
  buffers =
      Buffers-keep used-IsValid.buffers 99 (lock_by 9 used_entry) (omega arith) (λ e. cc) (λ e. cc)
        refl refl;
  one_lock =
      OneLock-lock used_state.entries used-IsValid.one_lock 99 9 used_entry
        (λ i l h. none_locked i h.0);
}

-- The uninitialised local message of a read.
abbrev pub local_msg : GetMsg
local_msg = record { buffer_len = 0; decompressed_len = 0; buffer = replicate 1024 170 }
