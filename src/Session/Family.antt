-- ===== src/Session/Family.antt =====
-- The C library, the driver and the process manager together: who may paste a text.
use clipboard.Prelude.{
  ℕ, ◌^◌, ◌≤◌, ◌<◌, ◌≡◌, refl, ◌≢◌, ◌⊎◌, inl, inr, arith, false, some, List, ◌++◌, drop, length, ℤ,
  pos, done, Returns, is_negative, minus_one, to_uint, to_uint_small,
}
use clipboard.Memory.{Allocator}
use clipboard.Protocol.{entry_len_limit, buf_max_count}
use clipboard.Clipboard.Invariant.{IsValid}
use clipboard.Clipboard.View.{Item, view}
use clipboard.Pm.{Mproc, do_checkifancestor}
use clipboard.Pm.CallNr.{pm_checkancestor}
use clipboard.Pm.Table.{call_vec, routine_at, call}
use clipboard.Pm.Table as Routines
use clipboard.Pm.Ancestor.{IsTable, IsAncestorOf, do_checkifancestor_lem}
use clipboard.Libc.{
  Os, o_rdwr, o_wronly, check_if_ancestor, expected_decompressed_size, copy_to_clipboard,
  paste_from_clipboard,
}
use clipboard.Session.{Device}
use clipboard.Session.Paste.{asked, Permitted}
use clipboard.Session.Refused.{paste-Refused}
use clipboard.Session.Whole.{copy_paste}

-- How a system call reaches the process manager, whose table of processes is `mproc`: a call whose
-- entry in the table of calls is do_checkifancestor, with the pids as its arguments, returns what that
-- returns, unless it is negative.
pub record Manager {W : Type 0} (os : Os W) : Type 0 where
  pub nr_procs : ℕ
  pub in_use : ℕ
  pub mproc : W → ℕ → Mproc
  pub call_reaches :
      (n p q fuel : ℕ) (w : W) (r : ℤ)
      → routine_at call_vec (call n) ≡ some Routines.do_checkifancestor
      → do_checkifancestor nr_procs in_use fuel (mproc w) p q ≡ some (done r)
      → is_negative r ≡ false
      → (os.syscall n p q w).0 ≡ r

module _ {W : Type 0} (os : Os W) (pm : Manager os) where
  -- The process table is well formed.
  abbrev pub Tabled : W → Type 0
  Tabled w = IsTable pm.nr_procs pm.in_use (pm.mproc w)

  -- `pid1` is `pid2` or an ancestor of the active process `pid2`.
  abbrev pub Family : ℕ → ℕ → W → Type 0
  Family pid1 pid2 w = IsAncestorOf pm.nr_procs pm.in_use (pm.mproc w) pid1 pid2

  routed : routine_at call_vec (call pm_checkancestor) ≡ some Routines.do_checkifancestor
  unfolding routine_at call_vec
  routed = refl

  answer_is :
      (p q n : ℕ) (w : W)
      → n < 2 ^ 8
      → do_checkifancestor pm.nr_procs pm.in_use pm.nr_procs (pm.mproc w) p q ≡ some (done (pos n))
      → (check_if_ancestor os p q w).0 ≡ n
  unfolding check_if_ancestor
  answer_is p q n w small runs =
      rw
        (
          pm.call_reaches pm_checkancestor p q pm.nr_procs w (pos n) routed runs refl,
          to_uint_small n (omega arith),
        )
        (omega arith)

  -- On a well-formed process table check_if_ancestor returns 1 if its first pid is the second or an
  -- ancestor of the active process with the second, and 0 if not.
  pub check_if_ancestor_lem :
      (p q : ℕ) (w : W)
      → Tabled w
      → (Family p q w × ((check_if_ancestor os p q w).0 ≡ 1))
        ⊎ ((¬ Family p q w) × ((check_if_ancestor os p q w).0 ≡ 0))
  check_if_ancestor_lem p q w t =
      elim (do_checkifancestor_lem pm.nr_procs pm.in_use pm.nr_procs (pm.mproc w) p q t
        (omega arith)) [
          | inl (family, runs) ↦ inl (family, answer_is p q 1 w (omega arith) runs)
          | inr (stranger, runs) ↦ inr (stranger, answer_is p q 0 w (omega arith) runs)
        ]

  module _ (a : Allocator) (dev : Device os a) where
    pub Family-Permitted :
        (owner pid id : ℕ) (w : W)
        → Tabled (asked os a dev id w)
        → Family owner pid (asked os a dev id w)
        → Permitted os a dev owner pid id w
    Family-Permitted owner pid id w t family =
        elim (check_if_ancestor_lem owner pid (asked os a dev id w) t) [
          | inl (f, one) ↦ λ e. omega arith
          | inr (stranger, e) ↦ absurd (stranger family)
        ]

    -- A process copies a text of at most 1024 bytes, on a valid state of the driver, with room in
    -- memory, while the device opens, and gets a number `id` other than 0 and -1. Then a process that
    -- is the first or its descendant, in a system `v` where the driver's state is as the copy left
    -- it, pastes that number. Its pid is below 2^30, the process table is well formed when the
    -- process manager is asked, the device opens, and it has a buffer for the text in both forms. It
    -- gets exactly this text at the front of its buffer, and 0 as the result; the driver's state
    -- stays valid.
    pub descendant_pastes :
        (junk text : List ℕ) (p id : ℕ) (w w' v : W) (buffer : List ℕ) (buffer_len : ℕ)
        → is_negative (os.open_clipboard o_wronly w).0 ≡ false
        → length junk ≡ entry_len_limit
        → length text ≤ entry_len_limit
        → os.getpid w < 2 ^ 31
        → IsValid (dev.clip w)
        → a.place (dev.clip w).heap (length text) ≡ some p
        → copy_to_clipboard os junk text (length text) w ≡ done (id, w')
        → id ≢ to_uint minus_one
        → 0 < id
        → dev.clip v ≡ dev.clip w'
        → is_negative (os.open_clipboard o_rdwr v).0 ≡ false
        → os.getpid v < 2 ^ 30
        → buffer_len < 2 ^ 32
        → Tabled (asked os a dev id v)
        → Family (os.getpid w) (os.getpid v) (asked os a dev id v)
        → expected_decompressed_size text ≤ buffer_len
        → length text ≤ length buffer
        → Returns
            (paste_from_clipboard os id buffer buffer_len v)
            λ y. (y.0 ≡ 0) × (y.1 ≡ text ++ drop (length text) buffer) × IsValid (dev.clip y.2)
    descendant_pastes junk text p id w w' v buffer buffer_len opens whole fits small valid placed
          runs got some_id same opens' small' word t family =
        copy_paste os a dev junk text p id w w' v buffer buffer_len opens whole fits small valid
          placed runs got some_id same opens' small' word
          (Family-Permitted (os.getpid w) (os.getpid v) id v t family)

    -- A paste of an item in the store, under a number from 1 to 99 and with an owner's pid below
    -- 2^31, by a process that is neither the owner nor a descendant of it, while the process table is
    -- well formed when the process manager is asked: it returns -1 and leaves the caller's buffer and
    -- the driver's state alone.
    pub stranger_refused :
        (id : ℕ) (it : Item) (buffer : List ℕ) (buffer_len : ℕ) (w : W)
        → 0 < id
        → id < buf_max_count
        → it.owner < 2 ^ 31
        → view (dev.clip w) id ≡ some it
        → Tabled (asked os a dev id w)
        → ¬ Family it.owner (os.getpid w) (asked os a dev id w)
        → Returns
            (paste_from_clipboard os id buffer buffer_len w)
            λ x. (x.0 ≡ to_uint minus_one) × (x.1 ≡ buffer) × (dev.clip x.2 ≡ dev.clip w)
    stranger_refused id it buffer buffer_len w some_bytes l small seen t stranger =
        paste-Refused os a dev id buffer buffer_len w (
          inr (
            inr (
              it,
              some_bytes,
              l,
              small,
              seen,
              elim (check_if_ancestor_lem it.owner (os.getpid w) (asked os a dev id w) t) [
                | inl (family, one) ↦ absurd (stranger family)
                | inr (s, denied) ↦ denied
              ],
            )))
