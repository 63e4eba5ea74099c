-- ===== src/Main.antt =====
-- main of bw386389.c (new/usr/src/minix/drivers/examples/clipboard): the start, and then the loop of
-- libchardriver, which calls the driver's table for one request after the other.
pub mod Serve
pub mod Panic
pub mod Traffic
use clipboard.Prelude.{
  ◌>>=◌, ◌≡◌, Option, none, some, List, [], ◌∷◌, ℤ, Run, done, abort, undefined, ℕ, ◌≢◌,
}
use clipboard.Memory.{Allocator}
use clipboard.Protocol.{GetMsg}
use clipboard.Clipboard.{Clipboard, Request, read_device, write_device, handle, ok}
use clipboard.LiveUpdate.{DataStore, InitType, sef_cb_init}
use clipboard.Sef.{
  Callback, cb_init, cb_lu_state_save, cb_lu_prepare_always_ready, cb_lu_state_isvalid_standard,
  Sef, init_event, sef_local_startup,
}

-- What chardriver_reply of libchardriver (minix/lib/libchardriver/chardriver.c) does with the code
-- that a function of the table returned: it sends a reply with the code, or none, or panics. Two
-- codes of a read or a write get no reply, a third stops the driver; the driver's own OK is none of
-- them. Their numbers stand in errno.h.
pub record CharDriver : Type 0 where
  pub edontreply : ℤ
  pub erestart : ℤ
  pub suspend : ℤ
  pub reply : Request → ℤ → Run (Option ℤ)
  pub reply_code :
      (q : Request) (r : ℤ)
      → r ≢ edontreply
      → r ≢ erestart
      → r ≢ suspend
      → reply q r ≡ done (some r)
  pub reply_read :
      (copy_to : List ℕ → ℤ) (msg : GetMsg) (size : ℕ)
      → reply (read_device copy_to msg size) edontreply ≡ done none
  pub reply_write :
      (copy_from : ℕ → ℤ × List ℕ) (size : ℕ)
      → reply (write_device copy_from size) edontreply ≡ done none
  pub reply_erestart : (q : Request) → reply q erestart ≡ done none
  pub reply_ok : (q : Request) → reply q ok ≡ done (some ok)
  pub panics : (q : Request) → reply q suspend ≡ abort

-- The replies, where there are any, and the state after the last request.
unfoldable pub serve :
    CharDriver → Allocator → List Request → Clipboard → Run (List (Option ℤ) × Clipboard)
serve cd a [] c = done ([], c)
serve cd a (q ∷ qs) c = do
  (ret, c1) ← handle a q c
  sent ← cd.reply q ret
  (replies, c2) ← serve cd a qs c1
  done (sent ∷ replies, c2)

-- The stack's array of this instance is at `base`.
module _ {D T : Type 0} (ds : DataStore D) (sef : Sef T) (cd : CharDriver) (base : ℕ) where
  -- The call of a callback for the start of the driver; only `cb_init` has its type.
  abbrev pub call_init :
      Option Callback → Allocator → InitType → Clipboard → D → Run (ℤ × Clipboard × D)
  call_init none a ty c d = undefined
  call_init (some cb_init) a ty c d = sef_cb_init ds a base ty c d
  call_init (some cb_lu_state_save) a ty c d = undefined
  call_init (some cb_lu_prepare_always_ready) a ty c d = undefined
  call_init (some cb_lu_state_isvalid_standard) a ty c d = undefined

  -- `t` is SEF's table at the start of the process, `c` the static CLIPBOARD.
  unfoldable pub main :
      Allocator → InitType → T → List Request → Clipboard → D → Run (List (Option ℤ) × Clipboard)
  main a ty t requests c d = do
    x ← call_init (sef.get (init_event ty) (sef_local_startup sef t)) a ty c d
    serve cd a requests x.1
