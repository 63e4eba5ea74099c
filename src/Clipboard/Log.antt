-- ===== src/Clipboard/Log.antt =====
-- clipboard_log of bw386389.c, as it is with DEBUG: what it prints of the entries. The count of its
-- calls, which it prints first, is left out.
use clipboard.Prelude.{
  ℕ, zero, suc, ◌+◌, ◌≤◌, ◌≡◌, refl, ◌⊎◌, inl, inr, Option, none, some, List, [], ◌∷◌, ◌++◌, take,
  length, leb, le→leb, take_whole, if◌then◌else◌, Run, done, ◌>>=◌, ◌>>◌, defined_if, load,
  load_within, arith,
}
use clipboard.Memory.{block_at}
use clipboard.Memory.Laws.{block_at_live}
use clipboard.Protocol.{buf_max_count}
use clipboard.Clipboard.{Slot, empty, used, locked, Clipboard, busy}
use clipboard.Clipboard.Invariant.{IsValid}
use clipboard.Clipboard.View.{Item, Store, view}

-- What is printed of an entry.
pub record LogLine : Type 0 where
  pub id : ℕ
  pub entry_len : ℕ
  pub decompressed_len : ℕ
  pub text : List ℕ

-- The first `len` characters of a block.
unfoldable pub log_string : List ℕ → ℕ → Run (List ℕ)
log_string c len = do defined_if (leb len (length c)); done (take len c)

-- The loop, with `n` rounds left, at slot `i`.
unfoldable pub log_from : ℕ → ℕ → Clipboard → Run (List LogLine)
log_from zero i c = done []
log_from (suc n) i c = do
  let rest = log_from n (i + 1) c
  e ← load buf_max_count c.entries i
  if busy e
      then (do
        block ← block_at e.buffer c.heap
        text ← log_string block e.buffer_len
        lines ← rest
        done (
            record {
              id = i;
              entry_len = e.buffer_len;
              decompressed_len = e.decompressed_len;
              text = text;
            }
            ∷ lines))
      else rest

unfoldable pub clipboard_log : Clipboard → Run (List LogLine)
clipboard_log c = log_from buf_max_count 0 c

-- The line of an item that nobody holds.
abbrev pub line_of : ℕ → Option Item → List LogLine
line_of i none = []
line_of i (some it) = elim it.holder [
  | none ↦
      record {
        id = i;
        entry_len = length it.text;
        decompressed_len = it.decompressed_len;
        text = it.text;
      }
      ∷ []
  | some pid ↦ []
]

-- The lines of the items under the numbers from i on.
abbrev pub lines_of : ℕ → ℕ → Store → List LogLine
lines_of zero i s = []
lines_of (suc n) i s = line_of i (s i) ++ lines_of n (i + 1) s

Slot-cases : (s : Slot) → (s ≡ empty) ⊎ ((s ≡ used) ⊎ (s ≡ locked))
Slot-cases empty = inl refl
Slot-cases used = inr (inl refl)
Slot-cases locked = inr (inr refl)

log_from_lem :
    (n i : ℕ) (c : Clipboard)
    → IsValid c
    → i + n ≤ buf_max_count
    → log_from n i c ≡ done (lines_of n i (view c))
unfolding log_from log_string
log_from_lem zero i c v l = refl
log_from_lem (suc n) i c v l =
    let rest = log_from_lem n (i + 1) c v (omega arith) in
    let here = load_within buf_max_count c.entries i (omega arith) in
    elim (Slot-cases (c.entries i).in_use) [
      | inl em ↦ rw (here, em) rest
      | inr (inl us) ↦
          let (b, live, size, _) = v.buffers.owned i (omega arith) (λ em. cc (us, em)) in
          rw (
            here,
            us,
            block_at_live (c.entries i).buffer c.heap b live,
            le→leb (c.entries i).buffer_len (length b) (omega arith),
            take_whole (c.entries i).buffer_len b (omega arith),
            rest,
            live,
            size,
          )
      | inr (inr lo) ↦ rw (here, lo) rest
    ]

-- On a valid state the log never reads outside of a block, and prints exactly the texts that nobody
-- holds, each with its number and both lengths, in the order of the numbers.
pub clipboard_log_lem :
    (c : Clipboard) → IsValid c → clipboard_log c ≡ done (lines_of buf_max_count 0 (view c))
unfolding clipboard_log
clipboard_log_lem c v = log_from_lem buf_max_count 0 c v (omega arith)
