-- ===== src/Simulator/Runs.antt =====
-- Any number of calls of the simulator.
use clipboard.Prelude.{
  drop, minus_one, ℕ, zero, suc, ◌≤◌, ◌<◌, ◌≡◌, refl, inl, inr, List, [], ◌∷◌, ◌++◌, length, ap,
  sym, ◌∙◌, some, ℤ, pos, negsuc, done, Run, ◌>>=◌, Returns,
}
use clipboard.Memory.{Allocator, no_blocks}
use clipboard.Simulator.{
  Clipboard, Message, read_msg, write_msg, buf_max_count, clipboard_ioctl, clipboard_init,
}
use clipboard.Simulator.Invariant.{IsValid}
use clipboard.Simulator.Shelf.{left}
use clipboard.Simulator.Write.{clipboard_write_lem}
use clipboard.Simulator.Read.{clipboard_read_lem}
use clipboard.Simulator.Start.{clipboard_init_lem}

-- CLIPBOARD_READ and CLIPBOARD_WRITE, as the number of the request.
abbrev pub request : Message → ℤ
request (read_msg m) = pos 0
request (write_msg m) = pos 1

-- Each message through clipboard_ioctl, with the number that fits it: the replies, and the last state.
unfoldable pub serve_all : Allocator → List Message → Clipboard → Run (List ℤ × Clipboard)
serve_all a [] c = done ([], c)
serve_all a (m ∷ ms) c = do
  (ret, _, c1) ← clipboard_ioctl a (request m) m c
  (rets, c2) ← serve_all a ms c1
  done (ret ∷ rets, c2)

-- The length of a message is within its buffer, a number to read is below 100, and malloc finds room
-- for a text to write.
abbrev pub Sound : Allocator → Message → Clipboard → Type 0
Sound a (read_msg m) c = (m.id < buf_max_count) × (m.buffer_len ≤ length m.buffer)
Sound a (write_msg m) c =
    (m.buffer_len ≤ length m.buffer) × ((p : ℕ) × (a.place c.heap m.buffer_len ≡ some p))

-- Each message is sound in the state in which it is handled.
abbrev pub AllSound : Allocator → List Message → Clipboard → Type 0
AllSound a [] c = Unit {0}
AllSound a (m ∷ ms) c =
    Sound a m c
    × ((ret : ℤ) (back : Message) (d : Clipboard)
        → clipboard_ioctl a (request m) m c ≡ done (ret, back, d)
        → AllSound a ms d)

-- The numbers in the replies to the writes.
abbrev pub given : List Message → List ℤ → List ℕ
given [] rets = []
given (m ∷ ms) [] = []
given (read_msg m ∷ ms) (ret ∷ rets) = given ms rets
given (write_msg m ∷ ms) (pos k ∷ rets) = k ∷ given ms rets
given (write_msg m ∷ ms) (negsuc n ∷ rets) = given ms rets

-- The numbers below n, the greatest first.
abbrev pub down_from : ℕ → List ℕ
down_from zero = []
down_from (suc k) = k ∷ down_from k

pub serve_all_lem :
    (a : Allocator) (ms : List Message) (c : Clipboard)
    → IsValid c
    → AllSound a ms c
    → Returns (serve_all a ms c) λ x.
      IsValid x.1
      × (length x.0 ≡ length ms)
      × (given ms x.0 ++ down_from (left x.1) ≡ down_from (left c))
unfolding serve_all clipboard_ioctl
serve_all_lem a [] c v s = (([], c), refl, (v, refl, refl))
serve_all_lem a (read_msg m ∷ ms) c v ((l, fits), later) = elim (clipboard_read_lem m c v l fits) [
  | inl (why, reads) ↦
      let ((rets, d), runs, (v', len, numbers)) =
        serve_all_lem a ms c v (later minus_one (read_msg m) c (rw reads)) in
      ((minus_one ∷ rets, d), rw (reads, runs), (v', ap suc len, numbers))
  | inr (t, c1, seen, short, reads, v1, same, after) ↦
      let back = record m { buffer = t.bytes ++ drop (length t.bytes) m.buffer } in
      let ((rets, d), runs, (v', len, numbers)) =
        serve_all_lem a ms c1 v1 (later (pos 0) (read_msg back) c1 (rw reads)) in
      ((pos 0 ∷ rets, d), rw (reads, runs), (v', ap suc len, numbers ∙ ap down_from same))
]
serve_all_lem a (write_msg m ∷ ms) c v ((fits, (p, placed)), later) =
    elim (clipboard_write_lem a p m c v fits placed) [
      | inl (none_left, writes) ↦
          let ((rets, d), runs, (v', len, numbers)) =
            serve_all_lem a ms c v (later minus_one (write_msg m) c (rw writes)) in
          ((minus_one ∷ rets, d), rw (writes, runs), (v', ap suc len, numbers))
      | inr (k, c1, top_is, writes, v1, left1, after) ↦
          let ((rets, d), runs, (v', len, numbers)) =
            serve_all_lem a ms c1 v1 (later (pos k) (write_msg m) c1 (rw writes)) in
          (
            (pos k ∷ rets, d),
            rw (writes, runs),
            (
              v',
              ap suc len,
              ap (λ (l : List ℕ). k ∷ l) (numbers ∙ ap down_from left1) ∙ ap down_from (sym top_is),
            ),
          )
    ]

-- After the start, with no live block, every sequence of messages that are sound when their turn
-- comes is answered, one reply each, and leaves a valid state. The numbers that the writes are given,
-- followed by those that are left, are 99 down to 0: no number is given twice, whatever is read in
-- between, so that after 100 texts each write is refused.
pub numbers_run_out :
    (a : Allocator) (ms : List Message) (c : Clipboard)
    → c.heap ≡ no_blocks
    → ((c' : Clipboard) → clipboard_init c ≡ done c' → AllSound a ms c')
    → Returns (clipboard_init c >>= serve_all a ms) λ x.
      IsValid x.1
      × (length x.0 ≡ length ms)
      × (given ms x.0 ++ down_from (left x.1) ≡ down_from buf_max_count)
numbers_run_out a ms c clean sound =
    let (c1, inits, (v, all_left, _)) = clipboard_init_lem c clean in
    let (x, runs, (v', len, numbers)) = serve_all_lem a ms c1 v (sound c1 inits) in
    (x, rw (inits, runs), (v', len, numbers ∙ ap down_from all_left))
