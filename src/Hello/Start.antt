-- ===== src/Hello/Start.antt =====
-- sef_local_startup and main of hello.c: the registration of its callbacks, the start, and then the
-- loop of libchardriver, which calls the driver's table for one request after the other.
pub mod Count
use clipboard.Prelude.{
  ℕ, Option, none, some, List, [], ◌∷◌, ℤ, Bool, Run, done, undefined, ◌>>=◌, ◌≡◌,
}
use clipboard.LiveUpdate.{InitType}
use clipboard.Sef.{
  init_fresh, init_lu, init_restart, lu_prepare, lu_state_isvalid, lu_state_save, Callback, cb_init,
  cb_lu_state_save, cb_lu_prepare_always_ready, cb_lu_state_isvalid_standard, Sef, init_event,
}
use clipboard.Hello.{hello_open, hello_close, hello_read, WordStore, sef_cb_init}

-- The calls of hello_tab.
pub data HelloRequest : Type 0 where
  open_hello close_hello : HelloRequest
  read_hello : (List ℕ → ℤ) → ℕ → ℕ → HelloRequest

-- The state is open_counter.
unfoldable pub hello_handle : List ℕ → HelloRequest → ℕ → Run (ℤ × ℕ)
hello_handle message open_hello open_counter = hello_open open_counter
hello_handle message close_hello open_counter = done (hello_close open_counter)
hello_handle message (read_hello copy_to position size) open_counter = do
  r ← hello_read message copy_to position size
  done (r.0, open_counter)

-- The replies, and the counter after the last request.
unfoldable pub hello_serve : List ℕ → List HelloRequest → ℕ → Run (List ℤ × ℕ)
hello_serve message [] open_counter = done ([], open_counter)
hello_serve message (q ∷ qs) open_counter = do
  (ret, counter1) ← hello_handle message q open_counter
  (rets, counter2) ← hello_serve message qs counter1
  done (ret ∷ rets, counter2)

-- The order is that of the calls.
unfoldable pub sef_local_startup : {T : Type 0} → Sef T → T → T
sef_local_startup sef t =
    let t1 = sef.set init_fresh cb_init t in
    let t2 = sef.set init_lu cb_init t1 in
    let t3 = sef.set init_restart cb_init t2 in
    let t4 = sef.set lu_prepare cb_lu_prepare_always_ready t3 in
    let t5 = sef.set lu_state_isvalid cb_lu_state_isvalid_standard t4 in
    sef.set lu_state_save cb_lu_state_save t5

module _ {D T : Type 0} (ds : WordStore D) (sef : Sef T) where
  -- The call of a callback for the start of the driver; only `cb_init` has its type.
  abbrev pub hello_init : Option Callback → InitType → D → Run (ℤ × ℕ × Bool × D)
  hello_init none ty d = undefined
  hello_init (some cb_init) ty d = sef_cb_init ds ty d
  hello_init (some cb_lu_state_save) ty d = undefined
  hello_init (some cb_lu_prepare_always_ready) ty d = undefined
  hello_init (some cb_lu_state_isvalid_standard) ty d = undefined

  -- `t` is SEF's table at the start of the process. The results are the replies, open_counter and the
  -- data store.
  unfoldable pub main : List ℕ → InitType → T → List HelloRequest → D → Run (List ℤ × ℕ × D)
  main message ty t requests d = do
    (_, open_counter, _, d1) ← hello_init (sef.get (init_event ty) (sef_local_startup sef t)) ty d
    (rets, open_counter1) ← hello_serve message requests open_counter
    done (rets, open_counter1, d1)
