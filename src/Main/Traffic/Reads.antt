-- ===== src/Main/Traffic/Reads.antt =====
-- A read: what it hands out leaves the store.
use clipboard.Prelude.{
  ℕ, ◌^◌, ◌<◌, ◌≡◌, refl, inl, inr, Bool, arith, none, some, List, [], ◌∷◌, ◌++◌, length, drop, ℤ,
  minus_one, Returns, is_negative, to_int, Bool-cases, load_within, length-append, length-drop,
  take-append_self, ap,
}
use clipboard.Protocol.{
  GetMsg, buf_max_count, entry_len_limit, is_pid_query, is_correct_id, decode_id, decode_pid,
  get_bytes,
}
use clipboard.Protocol.Codec.{get_text_roundtrip}
use clipboard.Clipboard.{Clipboard, ok, clipboard_read, answer_get, do_clipboard_get}
use clipboard.Clipboard.Invariant.{IsValid}
use clipboard.Clipboard.Reach.{in_range}
use clipboard.Clipboard.View.{Item, view}
use clipboard.Clipboard.View.Count.{tally, stored-take}
use clipboard.Clipboard.View.Fits.{text_fits}
use clipboard.Clipboard.View.Refine.{get_refines}
use clipboard.Main.Traffic.{given, Balanced}

module _ (counts : List ℕ → Bool) where
  given_text :
      (msg : GetMsg) (it : Item) (rest : List ℕ)
      → length it.text < 2 ^ 32
      → msg.buffer_len ≡ length it.text
      → msg.buffer ≡ it.text ++ rest
      → length msg.buffer ≡ entry_len_limit
      → given (some (get_bytes msg)) ≡ it.text ∷ []
  given_text msg it rest small len_is text_is whole =
      let (len, text, _) = get_text_roundtrip msg (rw len_is small) whole in
      rw (len, text, len_is, text_is, take-append_self (length it.text) it.text rest refl)

  get_balance :
      (copy_to : List ℕ → ℤ) {c : Clipboard} (msg : GetMsg) (pid : ℕ)
      → IsValid c
      → length msg.buffer ≡ entry_len_limit
      → Returns (do_clipboard_get msg pid c) λ got.
        let r = answer_get copy_to got in
        IsValid r.after × Balanced counts c ([], given r.sent, r.after)
  unfolding answer_get
  get_balance copy_to {c} msg pid v room = elim (get_refines msg pid v room) [
    | inl (id, it, msg', d, l, seen, held, runs, len_is, dec_is, text_is, v', after) ↦
        let fits = text_fits id it v l seen in
        let whole : length msg'.buffer ≡ entry_len_limit = rw text_is (
          omega (
            arith,
            room,
            fits,
            length-append it.text (drop (length it.text) msg.buffer),
            length-drop (length it.text) msg.buffer,
          )) in
        let out =
          given_text msg' it (drop (length it.text) msg.buffer) (omega (arith, fits)) len_is text_is
            whole in
        let less = stored-take counts (view c) (view d) id it l seen after in
        ((ok, msg', d), runs, (v', omega (arith, less, ap (tally counts) out)))
    | inr (none_held, runs) ↦ ((minus_one, msg, c), runs, (v, refl))
  ]

  pub read_balance :
      (copy_to : List ℕ → ℤ) {c : Clipboard} (msg : GetMsg) (size : ℕ)
      → IsValid c
      → length msg.buffer ≡ entry_len_limit
      → Returns
          (clipboard_read copy_to msg size c)
          λ r. IsValid r.after × Balanced counts c ([], given r.sent, r.after)
  unfolding clipboard_read
  read_balance copy_to {c} msg size v room = elim (Bool-cases (is_pid_query size)) [
    | inl query ↦ elim (Bool-cases (is_correct_id size)) [
      | inl correct ↦
          rw
            (
              query,
              correct,
              load_within buf_max_count c.entries (decode_id size) (in_range size correct),
            )
            (
              record {
                ret = to_int (c.entries (decode_id size)).source_pid;
                sent = none;
                after = c;
              },
              refl,
              (v, refl),
            )
      | inr wrong ↦
          rw (query, wrong) (record { ret = minus_one; sent = none; after = c }, refl, (v, refl))
    ]
    | inr get ↦ elim (Bool-cases (is_negative (to_int (decode_pid size)))) [
      | inl negative ↦
          rw (get, negative) (record { ret = minus_one; sent = none; after = c }, refl, (v, refl))
      | inr fine ↦
          let (got, runs, good) = get_balance copy_to msg (decode_pid size) v room in
          rw (get, fine, runs) (answer_get copy_to got, refl, good)
    ]
  ]
