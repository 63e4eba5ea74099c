-- ===== src/Sef.antt =====
-- The registration of callbacks with SEF, the system event framework of MINIX, which is a parameter: a
-- driver registers a function for each event, and SEF calls what was registered last.
pub mod Laws
use clipboard.Prelude.{◌≡◌, ◌≢◌, Option, some}
use clipboard.LiveUpdate.{InitType, sef_init_fresh, sef_init_lu, sef_init_restart}

-- sef_setcb_ and one of these registers a callback.
pub data Event : Type 0 where
  init_fresh init_lu init_restart lu_prepare lu_state_isvalid lu_state_save : Event

-- The driver's own functions, and the two of SEF that it names.
pub data Callback : Type 0 where
  cb_init cb_lu_state_save cb_lu_prepare_always_ready cb_lu_state_isvalid_standard : Callback

-- Tables of callbacks.
pub record Sef (T : Type 0) : Type 0 where
  pub set : Event → Callback → T → T
  pub get : Event → T → Option Callback
  pub get-set_self : (e : Event) (cb : Callback) (t : T) → get e (set e cb t) ≡ some cb
  pub get-set_ne : (e f : Event) (cb : Callback) (t : T) → f ≢ e → get f (set e cb t) ≡ get f t

-- By the kind of the start, sef_startup calls the callback of one event.
abbrev pub init_event : InitType → Event
init_event sef_init_fresh = init_fresh
init_event sef_init_lu = init_lu
init_event sef_init_restart = init_restart

-- The order is that of the calls.
unfoldable pub sef_local_startup : {T : Type 0} → Sef T → T → T
sef_local_startup sef t =
    let t1 = sef.set init_fresh cb_init t in
    let t2 = sef.set init_lu cb_init t1 in
    let t3 = sef.set init_restart cb_init t2 in
    let t4 = sef.set lu_prepare cb_lu_prepare_always_ready t3 in
    let t5 = sef.set lu_state_isvalid cb_lu_state_isvalid_standard t4 in
    sef.set lu_state_save cb_lu_state_save t5
