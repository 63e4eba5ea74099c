-- ===== src/Session/Lock.antt =====
-- The lock request of paste_from_clipboard, and what follows it.
use clipboard.Prelude.{
  ℕ, ◌^◌, ◌≤◌, ◌<◌, ◌≡◌, refl, inl, inr, arith, true, le→leb, some, none, List, ℤ, ◌++◌, drop,
  length, ap, sym, subst, ◌∙◌, Returns, update, eq_cases, eq→==, ne→==_false,
}
use clipboard.Memory.{Allocator}
use clipboard.Protocol.{LockMsg, buf_max_count, lock_size, lock_bytes}
use clipboard.Protocol.Codec.{LockFits, lock_roundtrip}
use clipboard.Clipboard.{Clipboard, ok, clipboard_write}
use clipboard.Clipboard.Invariant.{IsValid}
use clipboard.Clipboard.View.{Item, Store, view, release, give_up, hold, hold_item, is_free_for}
use clipboard.Clipboard.View.Refine.{◌≈◌, lock_refines}
use clipboard.Clipboard.Requests.{write_lock}
use clipboard.Libc.{Os, lock_and_fetch}
use clipboard.Session.{Device, brings}
use clipboard.Session.Fetch.{fetch_lem}

-- An item that nobody holds and whose text, decompressed, fits the buffer.
abbrev pub Offered : ℕ → Item → Type 0
Offered buffer_len it = (it.holder ≡ none) × (it.decompressed_len ≤ buffer_len)

abbrev held_by : ℕ → Item → Item
held_by pid it = record it { holder = some pid }

not_held : (pid : ℕ) (it : Item) → it.holder ≡ none → give_up pid (some it) ≡ some it
not_held pid it free = ground arith

update_cong : (s t : Store) (id i : ℕ) → s i ≡ t i → update s id none i ≡ update t id none i
update_cong s t id i e = elim (eq_cases i id) [
  | inl same ↦ rw (eq→== i id same)
  | inr ne ↦ rw (ne→==_false i id ne) e
]

given_up :
    (s : Store) (id pid : ℕ) (it : Item)
    → s id ≡ some it
    → it.holder ≡ none
    → release pid s id ≡ some it
given_up s id pid it seen free = ap (give_up pid) seen ∙ not_held pid it free

Offered-is_free_for :
    (s : Store) (id pid buffer_len : ℕ) (it : Item)
    → s id ≡ some it
    → Offered buffer_len it
    → is_free_for buffer_len (release pid s id) ≡ true
Offered-is_free_for s id pid buffer_len it seen (free, fits) =
    rw (given_up s id pid it seen free, free) (le→leb it.decompressed_len buffer_len fits)

held_after :
    (s : Store) (id pid : ℕ) (it : Item)
    → s id ≡ some it
    → it.holder ≡ none
    → hold id pid (release pid s) id ≡ some (held_by pid it)
held_after s id pid it seen free =
    rw (eq→== id id refl) (ap (hold_item pid) (given_up s id pid it seen free))

taken_after :
    (s : Store) (id pid i : ℕ)
    → update (hold id pid (release pid s)) id none i ≡ update (release pid s) id none i
taken_after s id pid i = elim (eq_cases i id) [
  | inl same ↦ rw (eq→== i id same)
  | inr ne ↦ rw (ne→==_false i id ne)
]

module _ {W : Type 0} (os : Os W) (a : Allocator) (dev : Device os a) where
  -- What the caller's buffer and the store are once the item is pasted.
  abbrev pub Pasted : ℕ → ℕ → Item → List ℕ → W → ℕ × List ℕ × W → Type 0
  Pasted pid id it buffer w x =
      (x.0 ≡ 0)
      × (x.1 ≡ it.text ++ drop (length it.text) buffer)
      × IsValid (dev.clip x.2)
      × (view (dev.clip x.2) ≈ update (release pid (view (dev.clip w))) id none)

  pub lock_and_fetch_lem :
      (fd : ℤ) (pid id : ℕ) (it : Item) (buffer : List ℕ) (buffer_len : ℕ) (w : W)
      → dev.is_open fd w ≡ true
      → pid < 2 ^ 30
      → id < buf_max_count
      → buffer_len < 2 ^ 32
      → IsValid (dev.clip w)
      → view (dev.clip w) id ≡ some it
      → Offered buffer_len it
      → length it.text ≤ length buffer
      → Returns (lock_and_fetch os fd pid id buffer buffer_len w) (Pasted pid id it buffer w)
  unfolding lock_and_fetch
  lock_and_fetch_lem fd pid id it buffer buffer_len w opened small l word v seen offered room =
      elim (lock_refines m v l) [
        | inr (d, taken, runs, v', after) ↦
            absurd (
              cc (taken, Offered-is_free_for (view (dev.clip w)) id pid buffer_len it seen offered))
        | inl (d, free, runs, v', after) ↦
            let (ret_is, clip_is, opened', _) =
              dev.write_reaches fd (lock_bytes m) w ok d opened (omega (arith, size)) (
                ap (λ n. clipboard_write a (brings (lock_bytes m)) n (dev.clip w)) size
                ∙ write_lock a (brings (lock_bytes m)) (dev.clip w) m fits refl
                ∙ runs) in
            let w1 = (os.write fd (lock_bytes m) w).1 in
            let seen' : view (dev.clip w1) id ≡ some (held_by pid it) =
              ap (λ c. view c id) clip_is
              ∙ after id l
              ∙ held_after (view (dev.clip w)) id pid it seen offered.0 in
            let (x, fetches, (zero_ret, text, v'', after')) =
              fetch_lem os a dev fd pid id (held_by pid it) buffer w1 opened' small l
                (subst IsValid (sym clip_is) v') seen' refl room in
            (
              x,
              rw ret_is fetches,
              (
                zero_ret,
                text,
                v'',
                λ i li.
                    after' i li
                    ∙ ap (λ (c : Clipboard). update (view c) id none i) clip_is
                    ∙ update_cong (view d) (hold id pid (release pid (view (dev.clip w)))) id i
                        (after i li)
                    ∙ taken_after (view (dev.clip w)) id pid i,
              ),
            )
      ]
    where
      m : LockMsg
      m = record { pid = pid; id = id; buffer_len = buffer_len }

      fits : LockFits m
      fits = (omega arith, omega arith, word)

      size : length (lock_bytes m) ≡ lock_size
      size = (lock_roundtrip m fits).1
