-- ===== src/Lifecycle/Quiet.antt =====
-- Actions that leave the sessions alone and give no drawn number back, and how they compose.
use bankos.Prelude.{
  ◌+◌, ◌≤◌, String, ◌≡◌, refl, ◌∙◌, Option, none, some, List, [], ◌∷◌, Thrown, Result, ok, err,
  arith, if◌then◌else◌, Bool, true, false,
}
use bankos.Domain.Event.{Event}
use bankos.Events.{audit_handle, handle_all, dispatch_to, dispatch}
use bankos.Repository.AuditLog as AuditLog
use bankos.Runtime.Action.{Action, continue, ◌>>=◌, for_each, stored, done, pure, throw_if}
use bankos.Runtime.Packages.{Packages}
use bankos.Runtime.World.{World}
use bankos.Service.Setup.{dispatch_from}

abbrev pub IsQuiet : {A : Type 0} → Action A → Type 0
IsQuiet m = (w : World) → ((m w).1.sessions ≡ w.sessions) × (w.draws ≤ (m w).1.draws)

continue-IsQuiet :
    {A B : Type 0} (r : Result A) (k : A → Action B)
    → ((a : A) → IsQuiet (k a))
    → IsQuiet (λ w. continue r k w)
continue-IsQuiet (ok a) k quiet w = quiet a w
continue-IsQuiet (err e) k quiet w = (refl, omega arith)

pub bind-IsQuiet :
    {A B : Type 0} (m : Action A) (k : A → Action B)
    → IsQuiet m
    → ((a : A) → IsQuiet (k a))
    → IsQuiet (m >>= k)
bind-IsQuiet m k first rest w =
    let (same, grows) = first w in
    let (same', grows') = continue-IsQuiet (m w).0 k rest (m w).1 in
    (same' ∙ same, omega (arith, grows, grows'))

pub for_each-IsQuiet :
    {A : Type 0} (body : A → Action (Unit {0})) (xs : List A)
    → ((x : A) → IsQuiet (body x))
    → IsQuiet (for_each body xs)
unfolding for_each
for_each-IsQuiet body [] quiet w = (refl, omega arith)
for_each-IsQuiet body (x ∷ xs) quiet w =
    bind-IsQuiet (body x) (λ _. for_each body xs) (quiet x) (λ _. for_each-IsQuiet body xs quiet) w

pub stored-IsQuiet :
    {S : Type 0} (t : Option S) (put : S → World) (e : Thrown) (w : World)
    → ((t : S) → ((put t).sessions ≡ w.sessions) × (w.draws ≤ (put t).draws))
    → ((stored t put e w).1.sessions ≡ w.sessions) × (w.draws ≤ (stored t put e w).1.draws)
stored-IsQuiet none put e w quiet = (refl, omega arith)
stored-IsQuiet (some t) put e w quiet = quiet t

pub pure-IsQuiet : {A : Type 0} (a : A) → IsQuiet (pure a)
pure-IsQuiet a w = (refl, omega arith)

pub throw_if-IsQuiet : (b : Bool) (e : Thrown) → IsQuiet (throw_if b e)
throw_if-IsQuiet true e w = (refl, omega arith)
throw_if-IsQuiet false e w = (refl, omega arith)

pub if-IsQuiet :
    {A : Type 0} (b : Bool) (m n : Action A) → IsQuiet m → IsQuiet n → IsQuiet (if b then m else n)
if-IsQuiet true m n quiet_m quiet_n w = quiet_m w
if-IsQuiet false m n quiet_m quiet_n w = quiet_n w

module _ (env : Packages) where
  audit_handle-IsQuiet : (event : Event) → IsQuiet (audit_handle env event)
  unfolding audit_handle AuditLog.save
  audit_handle-IsQuiet event w =
      let w' : World = record w { draws = w.draws + 1; ticks = w.ticks + 1 } in
      let (same, grows) = stored-IsQuiet _ _ _ w' (λ t. (refl, omega arith)) in
      (same, omega (arith, grows))

  handle_all-IsQuiet : (event : Event) → IsQuiet (handle_all env (audit_handle env ∷ []) event)
  unfolding handle_all for_each
  handle_all-IsQuiet event w =
      bind-IsQuiet (audit_handle env event) (λ _. done) (audit_handle-IsQuiet event)
        (λ _ w. (refl, omega arith)) w

  pub dispatch-IsQuiet : (events : List Event) → IsQuiet (dispatch env events)
  unfolding dispatch dispatch_to
  dispatch-IsQuiet events w =
      for_each-IsQuiet (handle_all env (audit_handle env ∷ [])) events handle_all-IsQuiet w

  pub dispatch_from-IsQuiet :
      (ip_address user_agent : String) (events : List Event)
      → IsQuiet (dispatch_from env ip_address user_agent events)
  unfolding dispatch_from
  dispatch_from-IsQuiet ip_address user_agent events w = dispatch-IsQuiet _ w
