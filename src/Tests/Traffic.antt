-- ===== src/Tests/Traffic.antt =====
-- What goes in and out of the driver.
use clipboard.Prelude.{
  Run, abort, undefined, load, store, none, done, done_injective, subst, ap, ℕ, ◌+◌, ◌≡◌, refl,
  arith, Bool, ◌==◌, List, [], ◌∷◌, length, ℤ, pos, Returns, sym, subst,
}
use clipboard.Protocol.{
  encode_id, decode_id, is_pid_query, is_correct_id, buf_max_count, lock_size, set_size, encode_pid,
  lock_bytes, lock_of_bytes, set_bytes,
}
use clipboard.Protocol.Codec.{set_roundtrip}
use clipboard.Stack
use clipboard.Clipboard.{
  empty_slots, Clipboard, clipboard_init, clipboard_close, clipboard_read, close_device, ok,
  clipboard_open, open_device, Request, read_device, write_device,
}
use clipboard.Clipboard.Fill.{IsSound}
use clipboard.Clipboard.Invariant.{IsValid}
use clipboard.Clipboard.Reach.{Sound}
use clipboard.Clipboard.View.{view}
use clipboard.Clipboard.View.Count.{tally, stored, stored_below}
use clipboard.Main.Serve.{AllSound}
use clipboard.Main.Traffic.{Passed, observe, observe_all}
use clipboard.Main.Traffic.Capacity.{Answered, set_accepted}
use clipboard.Main.Traffic.Updated.{update_conserves}
use clipboard.Memory.{no_blocks}
use clipboard.LiveUpdate.{sef_init_lu, sef_cb_lu_state_save, sef_cb_init}
use clipboard.LiveUpdate.Restore.{Room}
use clipboard.Tests.Update.{names, names-AllPublished, used-Room}
use clipboard.Main.Traffic.Whole.{texts_conserved}
use clipboard.Tests.Machine.{
  fresh_state, two_places, used_state, used-IsValid, abc_msg, abc-IsSound, lock_99, local_msg,
}

abbrev brings : List ℕ → ℕ → ℤ × List ℕ
brings bytes n = (pos 0, bytes)

-- Process 9 locks the text and reads it. Before, process 7 may write it once more.
abbrev later : List Request
later =
    write_device (brings (lock_bytes lock_99)) lock_size
    ∷ read_device (λ bytes. pos 0) local_msg (encode_pid 9)
    ∷ []

abbrev requests : List Request
requests = write_device (brings (set_bytes abc_msg)) set_size ∷ later

abbrev is_short : List ℕ → Bool
is_short text = length text == 3

one_stored : stored is_short (view used_state) ≡ 1
unfolding stored_below
one_stored = refl

set-Sound : Sound two_places (write_device (brings (set_bytes abc_msg)) set_size) used_state
set-Sound =
    let (e, _) = set_roundtrip abc_msg (omega arith, omega arith, omega arith, refl) in
    (λ l. absurd (omega arith), λ k. (subst IsSound (sym e) abc-IsSound, (2, refl)))

later-AllSound : (c : Clipboard) → AllSound two_places later c
unfolding lock_of_bytes lock_bytes
later-AllSound c = ((λ _. omega arith, λ e. cc), λ _ _ _. (refl, λ _ _ _. tt))

requests-AllSound : AllSound two_places requests used_state
requests-AllSound = (set-Sound, λ ret d runs. later-AllSound d)

texts_conserved_example : Returns (observe_all two_places requests used_state) λ x.
    IsValid x.2
    × (tally is_short x.0 + stored is_short (view used_state)
        ≡ tally is_short x.1 + stored is_short (view x.2))
texts_conserved_example =
    texts_conserved is_short two_places requests used-IsValid requests-AllSound

abbrev opened : List Request
opened = open_device ∷ []

still_used : (x : Passed) → observe_all two_places opened used_state ≡ done x → used_state ≡ x.2
unfolding observe_all observe clipboard_open
still_used x runs = ap (λ (y : Passed). y.2) (done_injective runs)

update_conserves_example : Returns (observe_all two_places opened used_state) λ x.
    Returns (sef_cb_lu_state_save names 4096 x.2 (λ k. none)) λ s.
      Returns (sef_cb_init names two_places 4096 sef_init_lu fresh_state s.0) λ y.
        Returns (observe_all two_places later y.1) λ z.
          (y.0 ≡ ok)
          × IsValid z.2
          × (tally is_short x.0 + tally is_short z.0 + stored is_short (view used_state)
              ≡ tally is_short x.1 + tally is_short z.1 + stored is_short (view z.2))
update_conserves_example =
    update_conserves names two_places is_short opened later 4096 4096 used_state fresh_state
      (λ k. none) used-IsValid (tt, λ _ _ _. tt) refl
      (λ x runs. names-AllPublished 4096 x.2 (λ k. none)) refl
      (λ x runs.
        subst (λ c. Room two_places c buf_max_count 0 no_blocks) (still_used x runs)
          (used-Room buf_max_count 0 refl))
      (λ x s y _ _ _. later-AllSound y.1)

abbrev pub state_after : Run Clipboard → Clipboard
state_after (done c) = c
state_after abort = fresh_state
state_after undefined = fresh_state

-- The driver, started.
abbrev pub started : Clipboard
started = state_after (clipboard_init fresh_state)

pub starts : clipboard_init fresh_state ≡ done started
unfolding clipboard_init Stack.init Stack.init_values store empty_slots load
starts = refl

-- A client asks who owns the entry 5.
abbrev asks : List Request
asks = open_device ∷ read_device (λ bytes. pos 0) local_msg (encode_id 5) ∷ close_device ∷ []

asked : observe_all two_places asks started ≡ done ([], [], started)
unfolding clipboard_init observe_all observe clipboard_open clipboard_close clipboard_read load
    encode_id decode_id is_pid_query is_correct_id Stack.init Stack.init_values store empty_slots
asked = refl

set_accepted_example : Answered two_places abc_msg ([], [], started)
unfolding clipboard_init Stack.init Stack.init_values store empty_slots load
set_accepted_example =
    set_accepted two_places asks fresh_state started ([], [], started) abc_msg 1 refl starts
      (tt, λ _ _ _. (refl, λ _ _ _. (tt, λ _ _ _. tt))) asked abc-IsSound refl
