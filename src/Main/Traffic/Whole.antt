-- ===== src/Main/Traffic/Whole.antt =====
-- Any number of requests.
use clipboard.Prelude.{ℕ, ◌≡◌, refl, Bool, arith, List, [], ◌∷◌, ◌++◌, ℤ, done, Returns}
use clipboard.Memory.{Allocator}
use clipboard.Clipboard.{
  Clipboard, Request, open_device, close_device, read_device, write_device, ok, handle,
  clipboard_open, clipboard_close,
}
use clipboard.Clipboard.Invariant.{IsValid}
use clipboard.Clipboard.Reach.{Sound}
use clipboard.Clipboard.View.Count.{tally-append}
use clipboard.Main.Serve.{AllSound}
use clipboard.Main.Traffic.{accepted, given, observe, observe_all, Balanced}
use clipboard.Main.Traffic.Writes.{write_balance}
use clipboard.Main.Traffic.Reads.{read_balance}

module _ (counts : List ℕ → Bool) where
  observe_balance :
      (a : Allocator) {c : Clipboard} (q : Request)
      → IsValid c
      → Sound a q c
      → Returns
          (observe a q c)
          λ x. ((ret : ℤ) × (handle a q c ≡ done (ret, x.2))) × IsValid x.2 × Balanced counts c x
  unfolding observe handle clipboard_open clipboard_close
  observe_balance a {c} open_device v s = (([], [], c), refl, ((ok, refl), v, refl))
  observe_balance a {c} close_device v s = (([], [], c), refl, ((ok, refl), v, refl))
  observe_balance a (read_device copy_to msg size) v s =
      let (r, runs, (v', even)) = read_balance counts copy_to msg size v s in
      (([], given r.sent, r.after), rw runs, ((r.ret, rw runs), v', even))
  observe_balance a (write_device copy_from size) v s =
      let (x, runs, (v', even)) = write_balance counts a copy_from size v s in
      ((accepted size (copy_from size) x.0, [], x.1), rw runs, ((x.0, runs), v', even))

  -- On a valid state, requests that are sound when their turn comes are all handled, and the state
  -- stays valid. Of each kind of text there are then as many that were in the store at first, or that
  -- came in by a set message that got a number, as there are that reads handed to sys_safecopyto, or
  -- that are in the store now.
  pub texts_conserved :
      (a : Allocator) (qs : List Request) {c : Clipboard}
      → IsValid c
      → AllSound a qs c
      → Returns (observe_all a qs c) λ x. IsValid x.2 × Balanced counts c x
  unfolding observe_all
  texts_conserved a [] {c} v s = (([], [], c), refl, (v, refl))
  texts_conserved a (q ∷ qs) {c} v (sound, later) =
      let (x, runs, (replied, v', even)) = observe_balance a q v sound in
      let (y, run_on, (v'', even')) = texts_conserved a qs v' (later replied.0 x.2 replied.1) in
      (
        (x.0 ++ y.0, x.1 ++ y.1, y.2),
        rw (runs, run_on),
        (v'', omega (arith, even, even', tally-append counts x.0 y.0, tally-append counts x.1 y.1)),
      )
