-- ===== src/Main/Traffic/Capacity.antt =====
-- How many texts the driver has room for.
use clipboard.Prelude.{
  ℕ, zero, suc, ◌+◌, ◌≤◌, ◌<◌, ◌≡◌, refl, ◌⊎◌, inl, inr, true, arith, none, some, Option, List, [],
  ◌∷◌, length, pos, minus_one, done, done_injective, eq_cases, ap, sym, subst, ◌∙◌, Bool,
}
use clipboard.Memory.{Allocator, no_blocks}
use clipboard.Protocol.{SetMsg, buf_max_count}
use clipboard.Clipboard.{Clipboard, Request, do_clipboard_set, clipboard_init}
use clipboard.Clipboard.Invariant.{IsValid}
use clipboard.Clipboard.Fill.{IsSound}
use clipboard.Clipboard.Init.{clipboard_init_lem}
use clipboard.Clipboard.View.{Item, Store, view}
use clipboard.Clipboard.View.Count.{tally, amount, stored_below}
use clipboard.Clipboard.View.Refine.{set_refines}
use clipboard.Main.Serve.{AllSound}
use clipboard.Main.Traffic.{Passed, observe_all}
use clipboard.Main.Traffic.Whole.{texts_conserved}

abbrev every : List ℕ → Bool
every text = true

tally-every : (texts : List (List ℕ)) → tally every texts ≡ length texts
tally-every [] = refl
tally-every (text ∷ texts) = omega (arith, tally-every texts)

amount_small : (o : Option Item) → amount every o ≤ 1
amount_small none = omega arith
amount_small (some it) = omega arith

none_stored : (s : Store) (n : ℕ) → ((i : ℕ) → i < n → s i ≡ none) → stored_below every s n ≡ 0
unfolding stored_below
none_stored s zero free = refl
none_stored s (suc n) free =
    let here : amount every (s n) ≡ 0 = ap (amount every) (free n (omega arith)) in
    omega (arith, here, none_stored s n (λ i l. free i (omega arith)))

all_stored :
    (s : Store) (n : ℕ)
    → ((i : ℕ) → i < n → (it : Item) × (s i ≡ some it))
    → stored_below every s n ≡ n
unfolding stored_below
all_stored s zero full = refl
all_stored s (suc n) full =
    let (it, seen) = full n (omega arith) in
    let here : amount every (s n) ≡ 1 = ap (amount every) seen in
    omega (arith, here, all_stored s n (λ i l. full i (omega arith)))

stored_below-bound : (s : Store) (n : ℕ) → stored_below every s n ≤ n
unfolding stored_below
stored_below-bound s zero = omega arith
stored_below-bound s (suc n) = omega (arith, amount_small (s n), stored_below-bound s n)

one_free : (s : Store) (id n : ℕ) → id < n → s id ≡ none → stored_below every s n < n
unfolding stored_below
one_free s id zero l free = absurd (omega arith)
one_free s id (suc n) l free = elim (eq_cases n id) [
  | inl same ↦
      let here : amount every (s n) ≡ 0 =
        ap (λ i. amount every (s i)) same ∙ ap (amount every) free in
      omega (arith, here, stored_below-bound s n)
  | inr other ↦ omega (arith, amount_small (s n), one_free s id n (omega arith) free)
]

-- The answer to a set message, after these texts went in and out: a number, while fewer than 100 of
-- them are still there, and -1, with nothing changed, when all 100 are.
abbrev pub Answered : Allocator → SetMsg → Passed → Type 0
Answered a msg x =
    ((length x.0 < length x.1 + buf_max_count)
      × ((id : ℕ) × (d : Clipboard) × (id < buf_max_count)
          × (do_clipboard_set a msg x.2 ≡ done (pos id, d))))
    ⊎ ((length x.0 ≡ length x.1 + buf_max_count)
        × (do_clipboard_set a msg x.2 ≡ done (minus_one, x.2)))

-- After a fresh start, with no live block, and any requests that are sound when their turn comes, a
-- sound set message comes, with room in memory. It gets a number exactly if fewer than 100 of the
-- texts that came in so far were not yet handed to sys_safecopyto; if not, these are exactly 100, it
-- gets -1, and nothing changes.
pub set_accepted :
    (a : Allocator) (qs : List Request) (before c : Clipboard) (x : Passed) (msg : SetMsg) (p : ℕ)
    → before.heap ≡ no_blocks
    → clipboard_init before ≡ done c
    → AllSound a qs c
    → observe_all a qs c ≡ done x
    → IsSound msg
    → a.place x.2.heap msg.buffer_len ≡ some p
    → Answered a msg x
set_accepted a qs before c x msg p clean inits sound serves fits placed =
    let (c', inits', (v, free)) = clipboard_init_lem before clean in
    let start : c' ≡ c = done_injective (sym inits' ∙ inits) in
    let (y, serves', (v', even)) = texts_conserved every a qs (subst IsValid start v) sound in
    let same : y ≡ x = done_injective (sym serves' ∙ serves) in
    let empty_at : (i : ℕ) → i < buf_max_count → view c i ≡ none =
      λ i l. ap (λ e. view e i) (sym start) ∙ free i l in
    let nothing = none_stored (view c) buf_max_count empty_at in
    let ins = tally-every y.0 in
    let outs = tally-every y.1 in
    let placed' : a.place y.2.heap msg.buffer_len ≡ some p =
      ap (λ (z : Passed). a.place z.2.heap msg.buffer_len) same ∙ placed in
    subst (Answered a msg) same (elim (set_refines a p msg v' fits placed') [
      | inl (full, runs) ↦
          inr (
            omega (arith, even, nothing, ins, outs, all_stored (view y.2) buf_max_count full),
            runs,
          )
      | inr (id, d, l, empty_slot, runs, v'', after) ↦
          let room = one_free (view y.2) id buf_max_count l empty_slot in
          inl (omega (arith, even, nothing, ins, outs, room), (id, d, l, runs))
    ])
