-- ===== src/Session/Fetch.antt =====
-- The end of paste_from_clipboard: the text that the process holds.
use clipboard.Prelude.{
  ℕ, ◌^◌, ◌≤◌, ◌<◌, ◌≡◌, refl, inl, inr, arith, true, some, none, List, ℤ, ◌++◌, drop, length,
  replicate, length-append, length-drop, length-replicate, drop_all, append-nil, take-append_self,
  ap, sym, subst, ◌∙◌, done, Returns, to_uint_small, update,
}
use clipboard.Memory.{Allocator}
use clipboard.Memory.Laws.{memcpy_fits}
use clipboard.Protocol.{GetMsg, entry_len_limit, buf_max_count, get_size, encode_pid, get_bytes}
use clipboard.Protocol.Codec.{get_text_roundtrip}
use clipboard.Clipboard.{ok}
use clipboard.Clipboard.Invariant.{IsValid, LockedBy}
use clipboard.Clipboard.View.{Item, Store, view}
use clipboard.Clipboard.View.Fits.{text_fits}
use clipboard.Clipboard.View.Refine.{◌≈◌, held_locked}
use clipboard.Clipboard.Requests.{read_text}
use clipboard.Libc.{Os, fetch}
use clipboard.Session.{Device, accept}

same_item : (s : Store) (i j : ℕ) (x y : Item) → i ≡ j → s i ≡ some x → s j ≡ some y → x ≡ y
same_item s i j x y e p q = cc (ap s e, p, q)

encode_pid_small : (pid : ℕ) → pid < 2 ^ 30 → (0 < encode_pid pid) × (encode_pid pid < 2 ^ 31)
unfolding encode_pid
encode_pid_small pid h = (omega arith, omega arith)

module _ {W : Type 0} (os : Os W) (a : Allocator) (dev : Device os a) where
  abbrev pub Got : ℕ → Item → List ℕ → W → ℕ × List ℕ × W → Type 0
  Got id it buffer w x =
      (x.0 ≡ 0)
      × (x.1 ≡ it.text ++ drop (length it.text) buffer)
      × IsValid (dev.clip x.2)
      × (view (dev.clip x.2) ≈ update (view (dev.clip w)) id none)

  fetch_runs :
      (fd : ℤ) (pid : ℕ) (m : GetMsg) (it : Item) (junk buffer : List ℕ) (w : W)
      → (os.read fd (encode_pid pid) w).0 ≡ ok
      → (os.read fd (encode_pid pid) w).1 ≡ get_bytes m
      → m.buffer_len ≡ length it.text
      → m.buffer ≡ it.text ++ drop (length it.text) junk
      → length junk ≡ entry_len_limit
      → length it.text ≤ entry_len_limit
      → length it.text ≤ length buffer
      → fetch os fd pid buffer w
        ≡ done (
          0,
          it.text ++ drop (length it.text) buffer,
          (os.close fd (os.read fd (encode_pid pid) w).2).1,
        )
  unfolding fetch
  fetch_runs fd pid m it junk buffer w ret_is bytes_are len_is text_is junk_len small room =
      let (len_back, text_back, size) = get_text_roundtrip m (omega arith) whole in
      rw (
        ret_is,
        bytes_are,
        drop_all (length (get_bytes m)) (replicate get_size zero_byte)
            (omega (arith, size, length-replicate get_size zero_byte)),
        append-nil (get_bytes m),
        len_back,
        text_back,
        len_is,
        memcpy_fits buffer m.buffer (length it.text) (omega (arith, whole)) room,
        text_is,
        take-append_self (length it.text) it.text (drop (length it.text) junk) refl,
        to_uint_small 0 (omega arith),
      )
    where
      zero_byte : ℕ
      zero_byte = 0

      whole : length m.buffer ≡ entry_len_limit
      whole =
          ap length text_is
          ∙ omega (
            arith,
            length-append it.text (drop (length it.text) junk),
            length-drop (length it.text) junk,
          )

  pub fetch_lem :
      (fd : ℤ) (pid id : ℕ) (it : Item) (buffer : List ℕ) (w : W)
      → dev.is_open fd w ≡ true
      → pid < 2 ^ 30
      → id < buf_max_count
      → IsValid (dev.clip w)
      → view (dev.clip w) id ≡ some it
      → it.holder ≡ some pid
      → length it.text ≤ length buffer
      → Returns (fetch os fd pid buffer w) (Got id it buffer w)
  fetch_lem fd pid id it buffer w opened small l v seen held room =
      elim (read_text accept (dev.local_msg w) pid v (dev.length-local_msg w) (omega arith)) [
        | inr (none_held, runs) ↦ absurd (none_held id it l seen held)
        | inl (id', it', m, d, l', seen', held', runs, len_is, dec_is, text_is, v', after) ↦
            let same : id' ≡ id =
              v.one_lock pid id' id l' l (locked_by id' it' seen' held')
                (locked_by id it seen held) in
            let item : it' ≡ it = same_item (view (dev.clip w)) id' id it' it same seen' seen in
            let (ret_is, bytes_are, clip_is, _, _) =
              dev.read_reaches fd (encode_pid pid) w
                (record { ret = ok; sent = some (get_bytes m); after = d }) opened
                (encode_pid_small pid small).0 (encode_pid_small pid small).1 runs in
            let clip_is' = dev.clip-close fd (os.read fd (encode_pid pid) w).2 ∙ clip_is in
            (
              (
                0,
                it.text ++ drop (length it.text) buffer,
                (os.close fd (os.read fd (encode_pid pid) w).2).1,
              ),
              fetch_runs fd pid m it (dev.local_msg w).buffer buffer w ret_is bytes_are
                  (len_is ∙ ap (λ (x : Item). length x.text) item)
                  (text_is
                    ∙ ap (λ (x : Item). x.text ++ drop (length x.text) (dev.local_msg w).buffer)
                        item)
                  (dev.length-local_msg w) (text_fits id it v l seen) room,
              (
                refl,
                refl,
                subst IsValid (sym clip_is') v',
                λ i li.
                    ap (λ c. view c i) clip_is'
                    ∙ after i li
                    ∙ ap (λ k. update (view (dev.clip w)) k none i) same,
              ),
            )
      ]
    where
      locked_by :
          (k : ℕ) (x : Item)
          → view (dev.clip w) k ≡ some x
          → x.holder ≡ some pid
          → LockedBy pid ((dev.clip w).entries k)
      locked_by k x seen held =
          held_locked (dev.clip w).heap ((dev.clip w).entries k) ((dev.clip w).entries k).in_use pid
            x refl seen held
