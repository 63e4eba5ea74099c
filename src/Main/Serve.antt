-- ===== src/Main/Serve.antt =====
-- That the driver answers every request.
use clipboard.Prelude.{
  ◌≢◌, ◌⊎◌, inl, inr, Option, none, some, int_cases, done_injective, sym, ◌≡◌, refl, List, [], ◌∷◌,
  ap, ◌∙◌, ℤ, done, Returns,
}
use clipboard.Memory.{Allocator}
use clipboard.Clipboard.{
  Clipboard, Request, open_device, close_device, read_device, write_device, ok, handle,
  clipboard_open, clipboard_close,
}
use clipboard.Clipboard.Invariant.{IsValid}
use clipboard.Clipboard.Reach.{Sound, handle_total}
use clipboard.Sef.{Sef}
use clipboard.Main.{CharDriver, serve}

-- Each request is sound in the state in which it is handled.
abbrev pub AllSound : Allocator → List Request → Clipboard → Type 0
AllSound a [] c = Unit {0}
AllSound a (q ∷ qs) c =
    Sound a q c × ((ret : ℤ) (d : Clipboard) → handle a q c ≡ done (ret, d) → AllSound a qs d)

-- Each request is sound in the state in which it is handled, and its code does not stop the driver.
abbrev pub AllAnswerable : CharDriver → Allocator → List Request → Clipboard → Type 0
AllAnswerable cd a [] c = Unit {0}
AllAnswerable cd a (q ∷ qs) c =
    Sound a q c
    × ((ret : ℤ) (d : Clipboard)
        → handle a q c ≡ done (ret, d)
        → (ret ≢ cd.suspend) × AllAnswerable cd a qs d)

-- What is sent for a code: the code itself, or nothing for one of the two that get no reply.
abbrev pub IsReply : CharDriver → ℤ → Option ℤ → Type 0
IsReply cd ret sent =
    (sent ≡ some ret) ⊎ ((sent ≡ none) × ((ret ≡ cd.edontreply) ⊎ (ret ≡ cd.erestart)))

-- What is sent for each request in turn.
abbrev pub Replies : CharDriver → Allocator → List Request → List (Option ℤ) → Clipboard → Type 0
Replies cd a [] [] c = Unit {0}
Replies cd a [] (sent ∷ replies) c = ⊥
Replies cd a (q ∷ qs) [] c = ⊥
Replies cd a (q ∷ qs) (sent ∷ replies) c =
    (ret : ℤ) × (d : Clipboard) × (handle a q c ≡ done (ret, d))
    × IsReply cd ret sent
    × Replies cd a qs replies d

replied :
    (cd : CharDriver) (q : Request) (ret : ℤ)
    → ok ≡ ret
    → Returns (cd.reply q ret) λ sent. IsReply cd ret sent
replied cd q ret same = (some ok, ap (cd.reply q) (sym same) ∙ cd.reply_ok q, inl (ap some same))

reply_silent :
    (cd : CharDriver) (a : Allocator) (q : Request) (ret : ℤ) (c d : Clipboard)
    → handle a q c ≡ done (ret, d)
    → ret ≡ cd.edontreply
    → Returns (cd.reply q ret) λ sent. IsReply cd ret sent
unfolding handle clipboard_open clipboard_close
reply_silent cd a open_device ret c d runs silent =
    replied cd open_device ret (ap (λ (x : ℤ × Clipboard). x.0) (done_injective runs))
reply_silent cd a close_device ret c d runs silent =
    replied cd close_device ret (ap (λ (x : ℤ × Clipboard). x.0) (done_injective runs))
reply_silent cd a (read_device copy_to msg size) ret c d runs silent = (
  none,
  ap (cd.reply (read_device copy_to msg size)) silent ∙ cd.reply_read copy_to msg size,
  inr (refl, inl silent),
)
reply_silent cd a (write_device copy_from size) ret c d runs silent = (
  none,
  ap (cd.reply (write_device copy_from size)) silent ∙ cd.reply_write copy_from size,
  inr (refl, inl silent),
)

reply_total :
    (cd : CharDriver) (a : Allocator) (q : Request) (ret : ℤ) (c d : Clipboard)
    → handle a q c ≡ done (ret, d)
    → ret ≢ cd.suspend
    → Returns (cd.reply q ret) λ sent. IsReply cd ret sent
reply_total cd a q ret c d runs goes_on = elim (int_cases ret cd.edontreply) [
  | inl silent ↦ reply_silent cd a q ret c d runs silent
  | inr other ↦ elim (int_cases ret cd.erestart) [
    | inl restart ↦ (none, ap (cd.reply q) restart ∙ cd.reply_erestart q, inr (refl, inr restart))
    | inr plain ↦ (some ret, cd.reply_code q ret other plain goes_on, inl refl)
  ]
]

pub serve_total :
    (cd : CharDriver) (a : Allocator) (requests : List Request) {c : Clipboard}
    → IsValid c
    → AllAnswerable cd a requests c
    → Returns (serve cd a requests c) λ x. Replies cd a requests x.0 c × IsValid x.1
unfolding serve
serve_total cd a [] {c} v s = (([], c), refl, (tt, v))
serve_total cd a (q ∷ qs) {c} v (sound, later) =
    let ((ret, d), runs, v') = handle_total a q v sound in
    let (goes_on, rest) = later ret d runs in
    let (sent, replies, is_reply) = reply_total cd a q ret c d runs goes_on in
    let ((sents, e), serves, (answers, v'')) = serve_total cd a qs v' rest in
    ((sent ∷ sents, e), rw (runs, replies, serves), ((ret, d, runs, is_reply, answers), v''))
