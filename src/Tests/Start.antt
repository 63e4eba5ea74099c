-- ===== src/Tests/Start.antt =====
-- The start of the drivers.
use clipboard.Prelude.{
  Bool, false, ◌==◌, negsuc, if◌then◌else◌, ne→==_false, ap, Run, done, abort, ℕ, ◌≡◌, refl, ◌≢◌,
  arith, Option, none, some, List, [], ◌∷◌, ℤ, pos,
}
use clipboard.Clipboard.{Clipboard, Request, open_device, close_device, read_device, write_device}
use clipboard.Hello.{WordStore}
use clipboard.Hello.Start
use clipboard.Protocol.{encode_id}
use clipboard.Stack
use clipboard.Sef.{
  Event, init_fresh, init_lu, init_restart, lu_prepare, lu_state_isvalid, lu_state_save, Callback,
  Sef,
}
use clipboard.Main.{CharDriver}
use clipboard.Clipboard.Fill.{filled}
use clipboard.Clipboard.View.{Item}
use clipboard.Tests.Machine.{fresh_state, local_msg, abc_msg, text_abc}

record Callbacks : Type 0 where
  fresh : Option Callback
  lu : Option Callback
  restart : Option Callback
  prepare : Option Callback
  isvalid : Option Callback
  save : Option Callback

abbrev registered : Event → Callbacks → Option Callback
registered init_fresh t = t.fresh
registered init_lu t = t.lu
registered init_restart t = t.restart
registered lu_prepare t = t.prepare
registered lu_state_isvalid t = t.isvalid
registered lu_state_save t = t.save

abbrev register : Event → Callback → Callbacks → Callbacks
register init_fresh cb t = record t { fresh = some cb }
register init_lu cb t = record t { lu = some cb }
register init_restart cb t = record t { restart = some cb }
register lu_prepare cb t = record t { prepare = some cb }
register lu_state_isvalid cb t = record t { isvalid = some cb }
register lu_state_save cb t = record t { save = some cb }

registered-register_self :
    (e : Event) (cb : Callback) (t : Callbacks) → registered e (register e cb t) ≡ some cb
registered-register_self e cb t = ground arith

registered-register_ne :
    (e f : Event) (cb : Callback) (t : Callbacks)
    → f ≢ e
    → registered f (register e cb t) ≡ registered f t
registered-register_ne e f cb t ne = ground arith

abbrev sef : Sef Callbacks
sef = record {
  set = register;
  get = registered;
  get-set_self = λ e cb t. registered-register_self e cb t;
  get-set_ne = λ e f cb t ne. registered-register_ne e f cb t ne;
}

abbrev no_callbacks : Callbacks
no_callbacks = record {
  fresh = none;
  lu = none;
  restart = none;
  prepare = none;
  isvalid = none;
  save = none;
}

abbrev takes_all : List ℕ → ℤ
takes_all bytes = pos 0

abbrev same_code : ℤ → ℤ → Bool
same_code (pos m) (pos n) = m == n
same_code (pos m) (negsuc n) = false
same_code (negsuc m) (pos n) = false
same_code (negsuc m) (negsuc n) = m == n

other_code : (x y : ℤ) → x ≢ y → same_code x y ≡ false
other_code (pos m) (pos n) ne = ne→==_false m n (λ e. ne (ap pos e))
other_code (pos m) (negsuc n) ne = refl
other_code (negsuc m) (pos n) ne = refl
other_code (negsuc m) (negsuc n) ne = ne→==_false m n (λ e. ne (ap negsuc e))

-- Three codes for the tests, and the replies.
abbrev silent : Request → Run (Option ℤ)
silent open_device = abort
silent close_device = abort
silent (read_device copy_to msg size) = done none
silent (write_device copy_from size) = done none

abbrev code_or_none : Request → ℤ → Run (Option ℤ)
code_or_none q r =
    if same_code r (negsuc 200)
    then silent q
    else if same_code r (negsuc 199)
    then done none
    else if same_code r (negsuc 997)
    then abort
    else done (some r)

plain_code :
    (q : Request) (r : ℤ)
    → r ≢ negsuc 200
    → r ≢ negsuc 199
    → r ≢ negsuc 997
    → code_or_none q r ≡ done (some r)
plain_code q r a b c =
    rw (other_code r (negsuc 200) a, other_code r (negsuc 199) b, other_code r (negsuc 997) c)

abbrev char_driver : CharDriver
char_driver = record {
  edontreply = negsuc 200;
  erestart = negsuc 199;
  suspend = negsuc 997;
  reply = code_or_none;
  reply_code = plain_code;
  reply_read = λ copy_to msg size. refl;
  reply_write = λ copy_from size. refl;
  reply_erestart = λ q. refl;
  reply_ok = λ q. refl;
  panics = λ q. refl;
}

-- A client asks who owns the entry 5.
abbrev asks_owner : Request
asks_owner = read_device takes_all local_msg (encode_id 5)

-- The text of a process that gave -998 for its pid.
abbrev bad_state : Clipboard
bad_state = filled 99 1 (record abc_msg { pid = 4294966298 }) fresh_state

abbrev bad_item : Item
bad_item = record { text = text_abc; decompressed_len = 3; owner = 4294966298; holder = none }

abbrev hi : List ℕ
hi = 72 ∷ 105 ∷ 10 ∷ []

-- The data store of one word.
abbrev word : WordStore (Option ℕ)
word = record {
  publish = λ value d. some value;
  retrieve = λ d. d;
  delete = λ d. none;
  retrieve-publish = λ value d. refl;
}
