-- ===== src/Clipboard/Turns.antt =====
-- From a lock that is granted to the read of the text, with other requests in between.
use clipboard.Prelude.{
  ℕ, ◌^◌, ◌<◌, ◌≡◌, refl, ◌≢◌, inl, inr, Option, none, some, List, length, ◌++◌, drop, update,
  update_self, ℤ, minus_one, done, Returns, done_injective, ap, sym, subst, ◌∙◌, ◌==◌, Bool-cases,
}
use clipboard.Memory.{Allocator}
use clipboard.Protocol.{LockMsg, GetMsg, buf_max_count, entry_len_limit, encode_pid, get_bytes}
use clipboard.Clipboard.{Clipboard, Request, ok, handle, clipboard_read, do_clipboard_lock}
use clipboard.Clipboard.Invariant.{IsValid}
use clipboard.Clipboard.Reach.{Sound}
use clipboard.Clipboard.Others.{Holding, Apart, handle_keeps}
use clipboard.Clipboard.View.{Item, view, give_up, release, hold_item}
use clipboard.Clipboard.View.Refine.{◌≈◌, lock_refines, held_locked}
use clipboard.Clipboard.Requests.{read_text}

-- One state leads to another by sound requests that do not carry the pid of the process.
pub data Others (a : Allocator) (pid : ℕ) : Clipboard → Clipboard → Type 0 where
  idle : {c : Clipboard} → Others a pid c c
  turn :
      {c d e : Clipboard} {ret : ℤ} (q : Request)
      → Sound a q c
      → Apart pid q
      → handle a q c ≡ done (ret, d)
      → Others a pid d e
      → Others a pid c e

Others-Holding :
    {a : Allocator} {pid : ℕ} (id : ℕ) (it : Item) {c d : Clipboard}
    → Others a pid c d
    → Holding pid id it c
    → Holding pid id it d
Others-Holding id it idle h = h
Others-Holding {a} {pid} id it (turn q s apart runs rest) h =
    let (x, runs', h') = handle_keeps pid id it a q h s apart in
    Others-Holding id it rest
      (subst (λ (y : ℤ × Clipboard). Holding pid id it y.1) (done_injective (sym runs' ∙ runs)) h')

-- The item as the process holds it.
abbrev pub held_item : ℕ → Item → Item
held_item pid it = record it { holder = some pid }

holder_cases :
    (pid : ℕ) (it : Item) (o : Option ℕ)
    → it.holder ≡ o
    → hold_item pid (give_up pid (some it)) ≡ some (held_item pid it)
holder_cases pid it none free = rw free
holder_cases pid it (some q) held = elim (Bool-cases (q == pid)) [
  | inl same ↦ rw (held, same)
  | inr other ↦ rw (held, other)
]

granted :
    (m : LockMsg) (it : Item) {c d : Clipboard}
    → IsValid c
    → m.id < buf_max_count
    → view c m.id ≡ some it
    → do_clipboard_lock m c ≡ done (ok, d)
    → Holding m.pid m.id (held_item m.pid it) d
granted m it {c} {d} v l seen runs = elim (lock_refines m v l) [
  | inl (e, free, runs', v', after) ↦
      let same : e ≡ d = ap (λ (x : ℤ × Clipboard). x.1) (done_injective (sym runs' ∙ runs)) in
      (
        subst IsValid same v',
        l,
        ap (λ x. view x m.id) (sym same)
            ∙ after m.id l
            ∙ update_self (release m.pid (view c)) m.id _
            ∙ ap (λ o. hold_item m.pid (give_up m.pid o)) seen
            ∙ holder_cases m.pid it it.holder refl,
        refl,
      )
  | inr (e, taken, runs', v', after) ↦
      absurd (refused (ap (λ (x : ℤ × Clipboard). x.0) (done_injective (sym runs' ∙ runs))))
]
  where
    refused : minus_one ≢ ok
    refused e = cc

only_held :
    (pid i j : ℕ) (x y : Item) {c : Clipboard} → Holding pid i x c → Holding pid j y c → i ≡ j
only_held pid i j x y {c} (v, li, si, hi) (_, lj, sj, hj) =
    v.one_lock pid i j li lj
      (held_locked c.heap (c.entries i) (c.entries i).in_use pid x refl si hi)
      (held_locked c.heap (c.entries j) (c.entries j).in_use pid y refl sj hj)

-- On a valid state a process is granted the lock of an item. Then sound requests come, any number, in
-- any order, of which none carries the pid of the process: it is not encoded in the size of a read of a
-- text, and stands in no lock message. (The driver takes the pid from the request, whoever sends it, so
-- this is no condition on the sender.) Then the process reads, its pid below 2^31: sys_safecopyto is
-- handed a message with exactly the text of the item, its code is returned, and no other item of the
-- store is touched.
pub lock_keeps_text :
    (a : Allocator) (m : LockMsg) (it : Item) (copy_to : List ℕ → ℤ) (msg : GetMsg)
    {c c' d : Clipboard}
    → IsValid c
    → m.id < buf_max_count
    → m.pid < 2 ^ 31
    → length msg.buffer ≡ entry_len_limit
    → view c m.id ≡ some it
    → do_clipboard_lock m c ≡ done (ok, c')
    → Others a m.pid c' d
    → Returns (clipboard_read copy_to msg (encode_pid m.pid) d) λ r.
      (answer : GetMsg) × (r.sent ≡ some (get_bytes answer))
      × (r.ret ≡ copy_to (get_bytes answer))
      × (answer.buffer_len ≡ length it.text)
      × (answer.buffer ≡ it.text ++ drop (length it.text) msg.buffer)
      × IsValid r.after
      × (view r.after ≈ update (view d) m.id none)
lock_keeps_text a m it copy_to msg {c} {c'} {d} v l small room seen locks others =
    let (vd, ld, seen_d, held_d) =
      Others-Holding m.id (held_item m.pid it) others (granted m it v l seen locks) in
    elim (read_text copy_to msg m.pid vd room small) [
      | inr (none_held, runs) ↦ absurd (none_held m.id (held_item m.pid it) l seen_d held_d)
      | inl (id', it', answer, e, l', seen', held', runs, len_is, dec_is, text_is, v', after) ↦
          let same : id' ≡ m.id =
            only_held m.pid id' m.id it' (held_item m.pid it) (vd, l', seen', held')
              (vd, ld, seen_d, held_d) in
          let text : it'.text ≡ it.text =
            same_text it' (held_item m.pid it) (sym seen' ∙ ap (view d) same ∙ seen_d) in
          (
            _,
            runs,
            (
              answer,
              refl,
              refl,
              len_is ∙ ap length text,
              text_is ∙ ap (λ (t : List ℕ). t ++ drop (length t) msg.buffer) text,
              v',
              λ i li. after i li ∙ ap (λ k. update (view d) k none i) same,
            ),
          )
    ]
  where
    same_text : (x y : Item) → some x ≡ some y → x.text ≡ y.text
    same_text x y e = cc
