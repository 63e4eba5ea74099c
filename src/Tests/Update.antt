-- ===== src/Tests/Update.antt =====
-- A live update.
use clipboard.Prelude.{
  ℕ, zero, suc, ◌≡◌, ◌+◌, refl, ◌≢◌, arith, true, ◌==◌, if◌then◌else◌, Option, none, some,
  ne→==_false, Returns, ap,
}
use clipboard.Memory.{no_blocks}
use clipboard.Protocol.{buf_max_count}
use clipboard.Clipboard.{Clipboard, ok, empty}
use clipboard.Clipboard.Invariant.{IsValid}
use clipboard.Clipboard.View.{view}
use clipboard.Clipboard.View.Refine.{◌≈◌}
use clipboard.LiveUpdate.{
  Key, image_at, clipboard_key, buf_key, Blob, DataStore, sef_init_lu, sef_cb_lu_state_save,
  sef_cb_init,
}
use clipboard.LiveUpdate.Save.{Publishes, AllPublished}
use clipboard.LiveUpdate.Restore.{Room}
use clipboard.LiveUpdate.Whole.{live_update_lem}
use clipboard.Tests.Machine.{two_places, fresh_state, used_state, used-IsValid}

-- A data store as a function of the name.
abbrev pub Names : Type 0
Names = Key → Option Blob

abbrev pub put : Key → Option Blob → Names → Names
put clipboard_key x d clipboard_key = x
put clipboard_key x d (buf_key j) = d (buf_key j)
put (buf_key i) x d clipboard_key = d clipboard_key
put (buf_key i) x d (buf_key j) = if j == i then x else d (buf_key j)

==-self : (i : ℕ) → (i == i) ≡ true
==-self i = ground arith

pub put_self : (k : Key) (x : Option Blob) (d : Names) → put k x d k ≡ x
put_self clipboard_key x d = refl
put_self (buf_key i) x d = rw (==-self i)

pub put_ne : (k l : Key) (x : Option Blob) (d : Names) → l ≢ k → put k x d l ≡ d l
put_ne clipboard_key clipboard_key x d ne = absurd (ne refl)
put_ne clipboard_key (buf_key j) x d ne = refl
put_ne (buf_key i) clipboard_key x d ne = refl
put_ne (buf_key i) (buf_key j) x d ne = rw (ne→==_false j i (λ e. ne (ap buf_key e)))

abbrev pub names : DataStore Names
names = record {
  publish = λ k b d. (ok, put k (some b) d);
  retrieve = λ k d. d k;
  delete = λ k d. put k none d;
  retrieve-publish_self = λ k b d taken. put_self k (some b) d;
  retrieve-publish_ne = λ k l b d ne. put_ne k l (some b) d ne;
  retrieve-delete_ne = λ k l d ne. put_ne k l none d ne;
}

pub names-Publishes : (c : Clipboard) (n i : ℕ) (d : Names) → Publishes names c n i d
names-Publishes c zero i d = tt
names-Publishes c (suc n) i d =
    (λ b o live. (refl, names-Publishes c n (i + 1) _), λ em. names-Publishes c n (i + 1) d)

pub names-AllPublished : (base : ℕ) (c : Clipboard) (d : Names) → AllPublished names base c d
names-AllPublished base c d =
    (refl, names-Publishes c buf_max_count 0 (names.publish clipboard_key (image_at base c) d).1)

blank_below : (k : ℕ) → k ≢ 99 → (used_state.entries k).in_use ≡ empty
blank_below k ne = rw (ne→==_false k 99 ne)

-- 99 empty slots, then the one with the text.
pub used-Room : (n i : ℕ) → i + n ≡ 100 → Room two_places used_state n i no_blocks
used-Room zero i e = tt
used-Room (suc zero) i e = (λ b o live. (1, refl, tt), λ em. tt)
used-Room (suc (suc n)) i e = (
  λ b o live. absurd (o (blank_below i (omega arith))),
  λ em. used-Room (suc n) (i + 1) (omega arith),
)

live_update_lem_example : Returns (sef_cb_lu_state_save names 4096 used_state (λ k. none)) λ x.
    Returns
      (sef_cb_init names two_places 4096 sef_init_lu fresh_state x.0)
      λ y. (y.0 ≡ ok) × IsValid y.1 × (view y.1 ≈ view used_state)
live_update_lem_example =
    live_update_lem names two_places used_state used-IsValid 4096 4096 (λ k. none) fresh_state refl
      (names-AllPublished 4096 used_state (λ k. none)) refl (used-Room buf_max_count 0 refl)
