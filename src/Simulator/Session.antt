-- ===== src/Simulator/Session.antt =====
-- A text that is copied, and then pasted three times, as in the test of asm_tester.c.
use clipboard.Prelude.{
  ℕ, suc, ◌≤◌, ◌<◌, ◌≡◌, refl, inl, inr, some, none, List, ◌++◌, take, drop, length, ap, sym, ◌∙◌,
  pos, minus_one, to_uint, done, Returns, arith, update, update_self, take_whole,
}
use clipboard.Memory.{Allocator}
use clipboard.Libc.{expected_decompressed_size}
use clipboard.Simulator.{
  Clipboard, ReadMsg, WriteMsg, buf_max_count, clipboard_ioctl, clipboard_read, copy_to_clipboard,
  paste_from_clipboard,
}
use clipboard.Simulator.Invariant.{IsValid}
use clipboard.Simulator.Shelf.{Text, view, left}
use clipboard.Simulator.Write.{clipboard_write_lem}
use clipboard.Simulator.Read.{clipboard_read_lem}

abbrev read_of : ℕ → List ℕ → ℕ → ReadMsg
read_of id buffer n = record { buffer = buffer; buffer_len = n; id = id }

module _ (a : Allocator) where
  -- Nothing is there under the number, or a text that is longer than the buffer.
  paste_refused :
      (id : ℕ) (buffer : List ℕ) (n : ℕ) (c : Clipboard)
      → clipboard_read (read_of id buffer n) c ≡ done (minus_one, read_of id buffer n, c)
      → paste_from_clipboard a id buffer n c ≡ done (to_uint minus_one, buffer, n, c)
  unfolding paste_from_clipboard clipboard_ioctl
  paste_refused id buffer n c reads = rw reads

  paste_short :
      (id : ℕ) (t : Text) (buffer : List ℕ) (n : ℕ) (c : Clipboard)
      → IsValid c
      → id < buf_max_count
      → n ≤ length buffer
      → view c id ≡ some t
      → n < length t.bytes
      → paste_from_clipboard a id buffer n c ≡ done (to_uint minus_one, buffer, n, c)
  paste_short id t buffer n c v l room seen short =
      elim (clipboard_read_lem (read_of id buffer n) c v l room) [
        | inl (_, reads) ↦ paste_refused id buffer n c reads
        | inr (t', d, seen', fits, _, _, _, _) ↦
            let same : length t.bytes ≡ length t'.bytes = same_length t t' (sym seen ∙ seen') in
            absurd (omega arith)
      ]
    where
      same_length : (t t' : Text) → some t ≡ some t' → length t.bytes ≡ length t'.bytes
      same_length t t' e = cc

  paste_gone :
      (id : ℕ) (buffer : List ℕ) (n : ℕ) (c : Clipboard)
      → IsValid c
      → id < buf_max_count
      → n ≤ length buffer
      → view c id ≡ none
      → paste_from_clipboard a id buffer n c ≡ done (to_uint minus_one, buffer, n, c)
  paste_gone id buffer n c v l room gone =
      elim (clipboard_read_lem (read_of id buffer n) c v l room) [
        | inl (_, reads) ↦ paste_refused id buffer n c reads
        | inr (t, d, seen, _, _, _, _, _) ↦ absurd (cc (gone, seen))
      ]

  paste_given :
      (id : ℕ) (t : Text) (buffer : List ℕ) (n : ℕ) (c : Clipboard)
      → IsValid c
      → id < buf_max_count
      → n ≤ length buffer
      → view c id ≡ some t
      → length t.bytes ≤ n
      → (d : Clipboard) × (paste_from_clipboard a id buffer n c
          ≡ done (0, t.bytes ++ drop (length t.bytes) buffer, n, d))
        × IsValid d
        × (view d id ≡ none)
  unfolding paste_from_clipboard clipboard_ioctl to_uint
  paste_given id t buffer n c v l room seen fits =
      elim (clipboard_read_lem (read_of id buffer n) c v l room) [
        | inl (inl gone, _) ↦ absurd (cc (gone, seen))
        | inl (inr (t', seen', short), _) ↦ absurd (too_long t' seen' short)
        | inr (t', d, seen', _, reads, v', _, after) ↦ (
          d,
          rw reads (
              ap (λ (x : Text). done (0, x.bytes ++ drop (length x.bytes) buffer, n, d))
                (same t' seen')),
          v',
          after id l ∙ update_self (view c) id none,
        )
      ]
    where
      same : (t' : Text) → view c id ≡ some t' → t' ≡ t
      same t' seen' = cc (seen, seen')

      too_long : (t' : Text) → view c id ≡ some t' → ¬ (n < length t'.bytes)
      too_long t' seen' short =
          let e : length t'.bytes ≡ length t.bytes =
            ap (λ (x : Text). length x.bytes) (same t' seen') in
          omega arith

  -- On a valid state with a number left and room in memory, a text is copied. Then it is pasted with a
  -- length that is too small, with one that is not, and once more, each within its buffer. The copy
  -- returns the last number that was left. The first paste returns -1 and changes nothing; the second
  -- returns 0 with the text at the front of its buffer; the third returns -1 and changes nothing, since
  -- the text is gone. No paste changes the length it is given.
  pub copy_and_pastes :
      (text small large again : List ℕ) (n1 n2 n3 k p : ℕ) (c : Clipboard)
      → IsValid c
      → left c ≡ suc k
      → a.place c.heap (length text) ≡ some p
      → n1 ≤ length small
      → n1 < length text
      → n2 ≤ length large
      → length text ≤ n2
      → n3 ≤ length again
      → Returns (copy_to_clipboard a text (length text) c) λ x.
        (x.0 ≡ pos k)
        × IsValid x.1
        × (paste_from_clipboard a k small n1 x.1 ≡ done (to_uint minus_one, small, n1, x.1))
        × Returns (paste_from_clipboard a k large n2 x.1) λ y.
          (y.0 ≡ 0)
          × (y.1 ≡ text ++ drop (length text) large)
          × (y.2 ≡ n2)
          × IsValid y.3
          × (paste_from_clipboard a k again n3 y.3 ≡ done (to_uint minus_one, again, n3, y.3))
  unfolding copy_to_clipboard clipboard_ioctl
  copy_and_pastes text small large again n1 n2 n3 k p c v top_is placed r1 short r2 fits r3 =
      elim (clipboard_write_lem a p (message text) c v (omega arith) placed) [
        | inl (none_left, _) ↦ absurd (omega arith)
        | inr (k', d, top_is', writes, v', left', after) ↦
            let same : k' ≡ k = omega arith in
            let l : k < buf_max_count = omega (arith, v.fresh.within) in
            let seen : view d k ≡ some (stored text) =
              after k l
              ∙ ap (λ j. update (view c) j (some (stored_as (message text))) k) same
              ∙ update_self (view c) k (some (stored_as (message text)))
              ∙ whole text in
            let (e, pastes, v'', gone) = paste_given k (stored text) large n2 d v' l r2 seen fits in
            (
              (pos k, d),
              rw writes (ap (λ (j : ℕ). done (pos j, d)) same),
              (
                refl,
                v',
                paste_short k (stored text) small n1 d v' l r1 seen short,
                (
                  (0, text ++ drop (length text) large, n2, e),
                  pastes,
                  (refl, refl, refl, v'', paste_gone k again n3 e v'' l r3 gone),
                ),
              ),
            )
      ]
    where
      message : List ℕ → WriteMsg
      message text = record {
        buffer = text;
        buffer_len = length text;
        decompressed_len = expected_decompressed_size (take (length text) text);
      }

      stored : List ℕ → Text
      stored text = record {
        bytes = text;
        decompressed_len = expected_decompressed_size (take (length text) text);
      }

      stored_as : WriteMsg → Text
      stored_as m = record {
        bytes = take m.buffer_len m.buffer;
        decompressed_len = m.decompressed_len;
      }

      whole : (text : List ℕ) → some (stored_as (message text)) ≡ some (stored text)
      whole text =
          ap
            (λ (b : List ℕ). some (record {
              bytes = b;
              decompressed_len = expected_decompressed_size (take (length text) text);
            }))
            (take_whole (length text) text (omega arith))
