-- ===== src/Main/Traffic/Updated.antt =====
-- Requests before and after a live update.
use clipboard.Prelude.{ℕ, ◌+◌, ◌≡◌, Bool, arith, List, ℤ, done, Returns}
use clipboard.Memory.{Allocator, Heap, no_blocks}
use clipboard.Protocol.{buf_max_count}
use clipboard.Clipboard.{Clipboard, Request, ok}
use clipboard.Clipboard.Invariant.{IsValid}
use clipboard.Clipboard.View.{view}
use clipboard.Clipboard.View.Count.{tally, stored, stored_same}
use clipboard.LiveUpdate.{DataStore, sef_init_lu, sef_cb_lu_state_save, sef_cb_init}
use clipboard.LiveUpdate.Save.{AllPublished}
use clipboard.LiveUpdate.Restore.{Room}
use clipboard.LiveUpdate.Whole.{live_update_lem}
use clipboard.Main.Serve.{AllSound}
use clipboard.Clipboard.View.Refine.{◌≈◌}
use clipboard.Main.Traffic.{Passed, observe_all, Balanced}
use clipboard.Main.Traffic.Whole.{texts_conserved}

module _ {D : Type 0} (ds : DataStore D) (a : Allocator) (counts : List ℕ → Bool) where
  -- What the requests before the update, `x`, and those behind it come to.
  abbrev Conserved : ℕ → ℕ → List Request → Clipboard → Clipboard → D → Passed → Type 0
  Conserved from to rs c r d x = Returns (sef_cb_lu_state_save ds from x.2 d) λ s.
      Returns (sef_cb_init ds a to sef_init_lu r s.0) λ y. Returns (observe_all a rs y.1) λ z.
        (y.0 ≡ ok)
        × IsValid z.2
        × (tally counts x.0 + tally counts z.0 + stored counts (view c)
            ≡ tally counts x.1 + tally counts z.1 + stored counts (view z.2))

  behind_update :
      (from to : ℕ) (rs : List Request) (c r : Clipboard) (d : D) (x : Passed)
      → Balanced counts c x
      → Returns (sef_cb_lu_state_save ds from x.2 d) (λ s.
        Returns
          (sef_cb_init ds a to sef_init_lu r s.0)
          λ y. (y.0 ≡ ok) × IsValid y.1 × (view y.1 ≈ view x.2))
      → ((s : D × Heap) (y : ℤ × Clipboard × D)
          → sef_cb_lu_state_save ds from x.2 d ≡ done s
          → sef_cb_init ds a to sef_init_lu r s.0 ≡ done y
          → AllSound a rs y.1)
      → Conserved from to rs c r d x
  behind_update from to rs c r d x even (s, saves, (y, starts, (fine, v, seen))) sound =
      let (z, serves, (v', even')) = texts_conserved counts a rs v (sound s y saves starts) in
      let same = stored_same counts (view x.2) (view y.1) seen in
      (s, saves, (y, starts, (z, serves, (fine, v', omega (arith, even, even', same)))))

  -- The driver's functions handle requests on a valid state `c`, each sound when its turn comes; it
  -- saves its state, and a new instance, which has no blocks yet and room in its memory, is started
  -- by a live update and handles more such requests. The data store takes CLIPBOARD and each text,
  -- and the stack's array has the same address in both instances. Then no call faults in either
  -- instance. Of each kind of text as many were in the store at first, or came in by a set message
  -- that got a number, before or after the update, as reads handed to sys_safecopyto, before or after
  -- it, or are in the store at the end.
  pub update_conserves :
      (qs rs : List Request) (from to : ℕ) (c r : Clipboard) (d : D)
      → IsValid c
      → AllSound a qs c
      → to ≡ from
      → ((x : Passed) → observe_all a qs c ≡ done x → AllPublished ds from x.2 d)
      → r.heap ≡ no_blocks
      → ((x : Passed) → observe_all a qs c ≡ done x → Room a x.2 buf_max_count 0 no_blocks)
      → ((x : Passed) (s : D × Heap) (y : ℤ × Clipboard × D)
          → observe_all a qs c ≡ done x
          → sef_cb_lu_state_save ds from x.2 d ≡ done s
          → sef_cb_init ds a to sef_init_lu r s.0 ≡ done y
          → AllSound a rs y.1)
      → Returns (observe_all a qs c) λ x. Conserved from to rs c r d x
  update_conserves qs rs from to c r d v sound same_place fits clean room sound' =
      let (x, serves, (v1, even)) = texts_conserved counts a qs v sound in
      (
        x,
        serves,
        behind_update from to rs c r d x even
            (live_update_lem ds a x.2 v1 from to d r same_place (fits x serves) clean
              (room x serves))
            (λ s y saves starts. sound' x s y serves saves starts),
      )
