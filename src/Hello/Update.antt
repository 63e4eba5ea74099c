-- ===== src/Hello/Update.antt =====
-- The live update of hello.c.
use clipboard.Prelude.{ℕ, ◌≡◌, refl, true, false, pos, done}
use clipboard.LiveUpdate.{sef_init_fresh, sef_init_lu, sef_init_restart}
use clipboard.Hello.{WordStore, sef_cb_lu_state_save, lu_state_restore, sef_cb_init}

module _ {D : Type 0} (ds : WordStore D) where
  -- The counter outlives a live update and no restart. The driver announces itself when it starts anew,
  -- not when it is updated.
  pub update_keeps_counter :
      (open_counter : ℕ) (d : D)
      → (sef_cb_init ds sef_init_lu (sef_cb_lu_state_save ds open_counter d).1
          ≡ done (pos 0, open_counter, false, ds.delete (ds.publish open_counter d)))
        × (sef_cb_init ds sef_init_restart d ≡ done (pos 0, 0, true, d))
        × (sef_cb_init ds sef_init_fresh d ≡ done (pos 0, 0, true, d))
  unfolding sef_cb_init lu_state_restore sef_cb_lu_state_save
  update_keeps_counter open_counter d =
      (rw (ds.retrieve-publish open_counter d, lu_state_restore), refl, refl)
