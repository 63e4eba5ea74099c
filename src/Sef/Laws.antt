-- ===== src/Sef/Laws.antt =====
-- What sef_local_startup registers.
use clipboard.Prelude.{◌≡◌, ◌≢◌, Option, some, ◌∙◌}
use clipboard.LiveUpdate.{InitType, sef_init_fresh, sef_init_lu, sef_init_restart}
use clipboard.Sef.{
  Event, init_fresh, init_lu, init_restart, lu_prepare, lu_state_isvalid, lu_state_save, Callback,
  cb_init, cb_lu_state_save, cb_lu_prepare_always_ready, cb_lu_state_isvalid_standard, Sef,
  init_event, sef_local_startup,
}

module _ {T : Type 0} (sef : Sef T) (t : T) where
  skip :
      (e f : Event) (cb : Callback) (u : T) (o : Option Callback)
      → f ≢ e
      → sef.get f u ≡ o
      → sef.get f (sef.set e cb u) ≡ o
  skip e f cb u o ne at_u = sef.get-set_ne e f cb u ne ∙ at_u

  -- The callbacks of the live update, registered last, leave those of the start alone.
  kept :
      (f : Event) (u : T) (o : Option Callback)
      → f ≢ lu_prepare
      → f ≢ lu_state_isvalid
      → f ≢ lu_state_save
      → sef.get f u ≡ o
      → sef.get f (
          sef.set lu_state_save cb_lu_state_save (
            sef.set lu_state_isvalid cb_lu_state_isvalid_standard
              (sef.set lu_prepare cb_lu_prepare_always_ready u)))
        ≡ o
  kept f u o n1 n2 n3 at_u =
      skip lu_state_save f _ _ o n3
        (skip lu_state_isvalid f _ _ o n2 (skip lu_prepare f _ _ o n1 at_u))

  -- Whatever the kind of the start, the driver's own callback is called.
  pub get-sef_local_startup :
      (ty : InitType) → sef.get (init_event ty) (sef_local_startup sef t) ≡ some cb_init
  unfolding sef_local_startup
  get-sef_local_startup sef_init_fresh =
      kept init_fresh _ _ (λ e. cc) (λ e. cc) (λ e. cc)
        (skip init_restart init_fresh _ _ _ (λ e. cc)
          (skip init_lu init_fresh _ _ _ (λ e. cc) (sef.get-set_self init_fresh cb_init t)))
  get-sef_local_startup sef_init_lu =
      kept init_lu _ _ (λ e. cc) (λ e. cc) (λ e. cc)
        (skip init_restart init_lu _ _ _ (λ e. cc) (sef.get-set_self init_lu cb_init _))
  get-sef_local_startup sef_init_restart =
      kept init_restart _ _ (λ e. cc) (λ e. cc) (λ e. cc) (sef.get-set_self init_restart cb_init _)
