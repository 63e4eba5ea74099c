-- ===== src/Session/Copy.antt =====
-- copy_to_clipboard.
use clipboard.Prelude.{
  ℕ, ◌^◌, ◌≤◌, ◌<◌, ◌≡◌, refl, ◌⊎◌, inl, inr, arith, false, le→ltb_false, some, none, List, ℤ, take,
  length, ap, ap₂, sym, subst, ◌∙◌, done, Returns, is_negative, minus_one, to_uint, to_uint_small,
  update, pos,
}
use clipboard.Memory.{Allocator}
use clipboard.Protocol.{SetMsg, entry_len_limit, buf_max_count, set_bytes}
use clipboard.Protocol.Codec.{SetFits, set_roundtrip}
use clipboard.Clipboard.{Clipboard, clipboard_write, do_clipboard_set}
use clipboard.Clipboard.Invariant.{IsValid}
use clipboard.Clipboard.View.{Item, view, sent_item}
use clipboard.Clipboard.View.Refine.{◌≈◌, set_refines}
use clipboard.Clipboard.Requests.{write_set}
use clipboard.Libc.{Os, o_wronly, expected_decompressed_size, set_msg, copy_to_clipboard}
use clipboard.Libc.Copy.{set_msg_lem}
use clipboard.Session.{Device, brings}

-- The text that a process copies, as the store has it.
abbrev pub copied : ℕ → List ℕ → Item
copied pid text = record {
  text = text;
  decompressed_len = expected_decompressed_size text;
  owner = pid;
  holder = none;
}

sent_item-copied :
    (m : SetMsg) (pid : ℕ) (text : List ℕ)
    → take m.buffer_len m.buffer ≡ text
    → m.decompressed_len ≡ expected_decompressed_size text
    → m.pid ≡ pid
    → sent_item m ≡ copied pid text
sent_item-copied m pid text t d p = cc (t, d, p)

module _ {W : Type 0} (os : Os W) (a : Allocator) (dev : Device os a) where
  copy_runs :
      (junk buffer : List ℕ) (buffer_len : ℕ) (w : W) (m : SetMsg) (ret : ℤ)
      → is_negative (os.open_clipboard o_wronly w).0 ≡ false
      → buffer_len ≤ entry_len_limit
      → set_msg os junk buffer buffer_len (os.open_clipboard o_wronly w).1 ≡ done m
      → (os.write (os.open_clipboard o_wronly w).0 (set_bytes m) (os.open_clipboard o_wronly w).1).0
        ≡ ret
      → copy_to_clipboard os junk buffer buffer_len w
        ≡ done (
          to_uint ret,
          (os.close
              (os.open_clipboard o_wronly w).0
              (os.write
                (os.open_clipboard o_wronly w).0
                (set_bytes m)
                (os.open_clipboard o_wronly w).1).1).1,
        )
  unfolding copy_to_clipboard
  copy_runs junk buffer buffer_len w m ret opens fits sent ret_is =
      rw (le→ltb_false entry_len_limit buffer_len fits, opens, sent, ret_is)

  -- What a copy comes to: refused because each number is taken, or stored under a free one.
  abbrev pub Stored : List ℕ → W → ℕ × W → Type 0
  Stored text w x =
      ((x.0 ≡ to_uint minus_one)
        × (dev.clip x.1 ≡ dev.clip w)
        × ((i : ℕ) → i < buf_max_count → (it : Item) × (view (dev.clip w) i ≡ some it)))
      ⊎ ((x.0 < buf_max_count)
          × IsValid (dev.clip x.1)
          × (view (dev.clip w) x.0 ≡ none)
          × (view (dev.clip x.1)
              ≈ update (view (dev.clip w)) x.0 (some (copied (os.getpid w) text))))

  -- A process copies at most 1024 bytes of its buffer, on a valid state, with room in memory; its pid
  -- has 32 bits, the local message has a buffer of 1024 bytes, and the device opens. If every number
  -- is taken, -1 is returned and the driver's state is as before; if not, a number that was free is
  -- returned, under which the store now has the text, its announced size and the process as its
  -- owner, held by nobody, and the state is valid.
  pub copy_lem :
      (junk buffer : List ℕ) (buffer_len p : ℕ) (w : W)
      → is_negative (os.open_clipboard o_wronly w).0 ≡ false
      → length junk ≡ entry_len_limit
      → buffer_len ≤ entry_len_limit
      → buffer_len ≤ length buffer
      → os.getpid w < 2 ^ 32
      → IsValid (dev.clip w)
      → a.place (dev.clip w).heap buffer_len ≡ some p
      → Returns (copy_to_clipboard os junk buffer buffer_len w) (Stored (take buffer_len buffer) w)
  copy_lem junk buffer buffer_len p w opens whole fits inside small v placed =
      let fd = (os.open_clipboard o_wronly w).0 in
      let w1 = (os.open_clipboard o_wronly w).1 in
      let clip1 = dev.clip-open o_wronly w in
      let pid1 = dev.getpid-open o_wronly w in
      let (m, sent, (m_fits, sound, m_pid, m_len, m_text, m_size)) =
        set_msg_lem os junk buffer buffer_len w1 whole fits inside (rw pid1 small) in
      let placed' : a.place (dev.clip w1).heap m.buffer_len ≡ some p =
        ap (λ (c : Clipboard). a.place c.heap m.buffer_len) clip1
        ∙ ap (a.place (dev.clip w).heap) m_len
        ∙ placed in
      let item : sent_item m ≡ copied (os.getpid w) (take buffer_len buffer) =
        sent_item-copied m (os.getpid w) (take buffer_len buffer) m_text m_size (m_pid ∙ pid1) in
      let size = (set_roundtrip m m_fits).1 in
      elim (set_refines a p m (subst IsValid (sym clip1) v) sound placed') [
        | inl (full, runs) ↦
            let (ret_is, clip2, _, _) =
              dev.write_reaches fd (set_bytes m) w1 minus_one (dev.clip w1)
                (dev.open_gives o_wronly w opens) (omega (arith, size))
                (reached fd w1 m m_fits runs) in
            (
              (to_uint minus_one, (os.close fd (os.write fd (set_bytes m) w1).1).1),
              copy_runs junk buffer buffer_len w m minus_one opens fits sent ret_is,
              inl (
                refl,
                dev.clip-close fd (os.write fd (set_bytes m) w1).1 ∙ clip2 ∙ clip1,
                λ i li. rw (← clip1) (full i li),
              ),
            )
        | inr (id, d, l, free, runs, v', after) ↦
            let (ret_is, clip2, _, _) =
              dev.write_reaches fd (set_bytes m) w1 (pos id) d (dev.open_gives o_wronly w opens)
                (omega (arith, size)) (reached fd w1 m m_fits runs) in
            let w3 = (os.close fd (os.write fd (set_bytes m) w1).1).1 in
            let clip3 : dev.clip w3 ≡ d =
              dev.clip-close fd (os.write fd (set_bytes m) w1).1 ∙ clip2 in
            (
              (id, w3),
              copy_runs junk buffer buffer_len w m (pos id) opens fits sent ret_is
                  ∙ ap (λ (k : ℕ). done (k, w3)) (to_uint_small id (omega arith)),
              inr (
                l,
                subst IsValid (sym clip3) v',
                sym (ap (λ c. view c id) clip1) ∙ free,
                λ i li.
                    ap (λ c. view c i) clip3
                    ∙ after i li
                    ∙ ap₂ (λ (c : Clipboard) (it : Item). update (view c) id (some it) i) clip1
                        item,
              ),
            )
      ]
    where
      reached :
          {r : ℤ} {d : Clipboard} (fd : ℤ) (w1 : W) (m : SetMsg)
          → SetFits m
          → do_clipboard_set a m (dev.clip w1) ≡ done (r, d)
          → clipboard_write a (brings (set_bytes m)) (length (set_bytes m)) (dev.clip w1)
            ≡ done (r, d)
      reached fd w1 m m_fits runs =
          ap (λ n. clipboard_write a (brings (set_bytes m)) n (dev.clip w1))
            (set_roundtrip m m_fits).1
          ∙ write_set a (brings (set_bytes m)) (dev.clip w1) m m_fits refl
          ∙ runs
