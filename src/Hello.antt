-- ===== src/Hello.antt =====
-- hello.c of new/usr/src/minix/drivers/examples/hello: the driver beside that of the clipboard. Its
-- HELLO_MESSAGE stands in a header that is not in the repository: a parameter.
pub mod Read
pub mod Update
pub mod Start
use clipboard.Prelude.{
  ℕ, zero, suc, ◌+◌, ◌-◌, ◌%◌, ◌^◌, ◌≡◌, Bool, true, false, ltb, leb, if◌then◌else◌, Option, none,
  some, List, take, drop, length, ℤ, pos, negsuc, to_int, Run, done, undefined, ◌>>=◌, ◌>>◌,
  defined_if,
}
use clipboard.LiveUpdate.{InitType, sef_init_fresh, sef_init_lu, sef_init_restart}

-- open_counter, an int that is never negative: the next number is undefined at INT_MAX.
unfoldable pub hello_open : ℕ → Run (ℤ × ℕ)
hello_open open_counter = do
  defined_if (ltb (open_counter + 1) (2 ^ 31))
  done (pos 0, open_counter + 1)

unfoldable pub hello_close : ℕ → ℤ × ℕ
hello_close open_counter = (pos 0, open_counter)

-- A code of sys_safecopyto other than OK is returned, and else the size.
abbrev pub answer : ℤ → ℕ → ℤ
answer (pos zero) size = to_int size
answer (pos (suc n)) size = pos (suc n)
answer (negsuc n) size = negsuc n

-- `size`, limited to what the message has behind `position`.
unfoldable pub limit_size : ℕ → ℕ → ℕ → ℕ
limit_size dev_size position size =
    if ltb dev_size ((position + size) % 2 ^ 64) then (dev_size - position) % 2 ^ 32 else size

-- `copy_to` is sys_safecopyto on the caller's grant. The results are the value returned and the bytes
-- handed to the copy; bytes outside of the message are not there to be copied.
unfoldable pub hello_read : List ℕ → (List ℕ → ℤ) → ℕ → ℕ → Run (ℤ × Option (List ℕ))
hello_read message copy_to position size =
    if leb (length message) position then done (pos 0, none) else (do
      let limited = limit_size (length message) position size
      defined_if (leb (position + limited) (length message))
      let bytes = take limited (drop position message)
      done (answer (copy_to bytes) limited, some bytes))

-- ds_publish_u32 with DSF_OVERWRITE, ds_retrieve_u32 and ds_delete_u32 for the name "open_counter".
pub record WordStore (D : Type 0) : Type 0 where
  pub publish : ℕ → D → D
  pub retrieve : D → Option ℕ
  pub delete : D → D
  pub retrieve-publish : (value : ℕ) (d : D) → retrieve (publish value d) ≡ some value

module _ {D : Type 0} (ds : WordStore D) where
  unfoldable pub sef_cb_lu_state_save : ℕ → D → ℤ × D
  sef_cb_lu_state_save open_counter d = (pos 0, ds.publish open_counter d)

  -- A failed retrieval leaves `value` without a value.
  unfoldable pub lu_state_restore : D → Run (ℤ × ℕ × D)
  lu_state_restore d = elim (ds.retrieve d) [
    | none ↦ undefined
    | some value ↦ done (pos 0, value, ds.delete d)
  ]

  -- The results are the code, open_counter, whether chardriver_announce is called, and the data store.
  unfoldable pub sef_cb_init : InitType → D → Run (ℤ × ℕ × Bool × D)
  sef_cb_init sef_init_fresh d = done (pos 0, 0, true, d)
  sef_cb_init sef_init_lu d = do x ← lu_state_restore d; done (pos 0, x.1, false, x.2)
  sef_cb_init sef_init_restart d = done (pos 0, 0, true, d)
