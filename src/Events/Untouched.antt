-- ===== src/Events/Untouched.antt =====
-- The dispatch of events writes the audit log and nothing else of the state.
use bankos.Prelude.{ℕ, ◌+◌, ◌≡◌, refl, sym, ◌∙◌, List, [], ◌∷◌}
use bankos.Domain.Event.{Event}
use bankos.Events.{audit_handle, handle_all, dispatch_to, dispatch}
use bankos.Repository.AuditLog as AuditLog
use bankos.Runtime.Keeps.{Keeps, bind-Keeps, for_each-Keeps, stored-Keeps}
use bankos.Runtime.Action.{for_each, done}
use bankos.Runtime.Packages.{Packages}
use bankos.Runtime.World.{World}
use bankos.Database.Rows.{AuditRow}

-- `part` looks at neither the audit log nor the counts of draws and clock readings.
module _ (env : Packages) {T : Type 0} (part : World → T)
    (blind : (w : World) (log : List AuditRow) (draws ticks : ℕ)
      → part (record w { audit = log; draws = draws; ticks = ticks }) ≡ part w) where
  audit_handle-Keeps : (event : Event) → Keeps part (audit_handle env event)
  unfolding audit_handle AuditLog.save
  audit_handle-Keeps event w =
      let w' : World = record w { draws = w.draws + 1; ticks = w.ticks + 1 } in
      stored-Keeps part _ _ _ w'
        (λ t. blind w' t w'.draws w'.ticks ∙ sym (blind w' w'.audit w'.draws w'.ticks))
      ∙ blind w w.audit (w.draws + 1) (w.ticks + 1)

  handle_all-Keeps : (event : Event) → Keeps part (handle_all env (audit_handle env ∷ []) event)
  unfolding handle_all for_each
  handle_all-Keeps event w =
      bind-Keeps part (audit_handle env event) (λ _. done) (audit_handle-Keeps event) (λ _ w. refl)
        w

  pub dispatch-Keeps : (events : List Event) → Keeps part (dispatch env events)
  unfolding dispatch dispatch_to
  dispatch-Keeps events w =
      for_each-Keeps part (handle_all env (audit_handle env ∷ [])) events handle_all-Keeps w
