-- ===== src/Lifecycle/Lawful.antt =====
-- Actions that follow the life of the sessions. A session is opened under an id that was drawn before
-- and that no session has; that the next ids are free is an invariant.
pub mod Saved
use bankos.Prelude.{
  ℕ, ◌+◌, ◌≤◌, String, ◌≡◌, refl, subst, ap, ◌∙◌, inl, inr, none, some, List, [], ◌∷◌, ◌++◌, any,
  ◌===◌, Bool, true, false, Result, ok, err, arith, if◌then◌else◌, Bool-cases, ◌||◌, invalid_state,
}
use bankos.Database.{IsPrisma}
use bankos.Database.Delegate.{update_where}
use bankos.Database.Mapper.{session_columns}
use bankos.Database.Rows.{SessionRow}
use bankos.Domain.Event.{new_event, token_revoked}
use bankos.Domain.Session.{DeviceSession, revoke}
use bankos.Lifecycle.Quiet.{IsQuiet}
use bankos.Lifecycle.Spec.{
  Evolves, unchanged, evolved, opened, revoked, revoked_row, Evolves-trans, Evolves-path,
}
use bankos.Repository.Laws.{any-update_where, save_session_known}
use bankos.Repository.Sessions as Sessions
use bankos.Runtime.Action.{
  Action, lift, ◌>>◌, continue, ◌>>=◌, stored, generate_uuid, database_error,
}
use bankos.Runtime.Packages.{Packages}
use bankos.Runtime.World.{World}

abbrev pub taken : String → List SessionRow → Bool
taken id t = any (λ (r : SessionRow). r.id === id) t

module _ (env : Packages) where
  -- No session has an id that is still to be drawn.
  abbrev pub IsFresh : World → Type 0
  IsFresh w = (n : ℕ) → w.draws ≤ n → taken (env.random_uuid n) w.sessions ≡ false

  abbrev pub IsLawful : {A : Type 0} → Action A → Type 0
  IsLawful m = (w : World) → IsFresh w → IsFresh (m w).1 × Evolves w.sessions (m w).1.sessions

  -- An id that was drawn, that no session has, and that is not drawn again.
  abbrev pub Reserves : String → World → Type 0
  Reserves id w =
      IsFresh w
      × (taken id w.sessions ≡ false)
      × ((n : ℕ) → w.draws ≤ n → (id === env.random_uuid n) ≡ false)

  -- An action that opens a session under a reserved id, or none.
  abbrev pub Opens : String → {A : Type 0} → Action A → Type 0
  Opens id m = (w : World) → Reserves id w → IsFresh (m w).1 × Evolves w.sessions (m w).1.sessions

  quiet-IsFresh :
      {A : Type 0} (m : Action A) → IsQuiet m → (w : World) → IsFresh w → IsFresh (m w).1
  quiet-IsFresh m quiet w fresh n later =
      let (same, grows) = quiet w in
      ap (taken (env.random_uuid n)) same ∙ fresh n (omega (arith, grows, later))

  pub quiet-IsLawful : {A : Type 0} (m : Action A) → IsQuiet m → IsLawful m
  quiet-IsLawful m quiet w fresh = (quiet-IsFresh m quiet w fresh, Evolves-path (quiet w).0)

  continue-IsLawful :
      {A B : Type 0} (r : Result A) (k : A → Action B)
      → ((a : A) → IsLawful (k a))
      → IsLawful (λ w. continue r k w)
  continue-IsLawful (ok a) k lawful w fresh = lawful a w fresh
  continue-IsLawful (err e) k lawful w fresh = (fresh, unchanged)

  pub bind-IsLawful :
      {A B : Type 0} (m : Action A) (k : A → Action B)
      → IsLawful m
      → ((a : A) → IsLawful (k a))
      → IsLawful (m >>= k)
  bind-IsLawful m k first rest w fresh =
      let (fresh', e) = first w fresh in
      let (fresh'', e') = continue-IsLawful (m w).0 k rest (m w).1 fresh' in
      (fresh'', Evolves-trans e e')

  continue-Opens :
      {A B : Type 0} (id : String) (r : Result A) (k : A → Action B)
      → ((a : A) → Opens id (k a))
      → Opens id (λ w. continue r k w)
  continue-Opens id (ok a) k opens w reserved = opens a w reserved
  continue-Opens id (err e) k opens w reserved = (reserved.0, unchanged)

  -- A reserved id survives what leaves the sessions alone.
  pub bind-Opens :
      {A B : Type 0} (id : String) (m : Action A) (k : A → Action B)
      → IsQuiet m
      → ((a : A) → Opens id (k a))
      → Opens id (m >>= k)
  bind-Opens id m k quiet rest w (fresh, free, apart) =
      let (same, grows) = quiet w in
      let (fresh', e) = continue-Opens id (m w).0 k rest (m w).1 (
        quiet-IsFresh m quiet w fresh,
        ap (taken id) same ∙ free,
        λ n later. apart n (omega (arith, grows, later)),
      ) in
      (fresh', subst (λ t. Evolves t ((m >>= k) w).1.sessions) same e)

  -- An action that revokes a session that is in the table, or does nothing to it.
  abbrev pub Revokes : String → {A : Type 0} → Action A → Type 0
  Revokes id m =
      (w : World)
      → IsFresh w
      → taken id w.sessions ≡ true
      → IsFresh (m w).1 × Evolves w.sessions (m w).1.sessions

  continue-Revokes :
      {A B : Type 0} (id : String) (r : Result A) (k : A → Action B)
      → ((a : A) → Revokes id (k a))
      → Revokes id (λ w. continue r k w)
  continue-Revokes id (ok a) k revokes w fresh there' = revokes a w fresh there'
  continue-Revokes id (err e) k revokes w fresh there' = (fresh, unchanged)

  pub bind-Revokes :
      {A B : Type 0} (id : String) (m : Action A) (k : A → Action B)
      → IsQuiet m
      → ((a : A) → Revokes id (k a))
      → Revokes id (m >>= k)
  bind-Revokes id m k quiet rest w fresh known =
      let (same, grows) = quiet w in
      let (fresh', e) =
        continue-Revokes id (m w).0 k rest (m w).1 (quiet-IsFresh m quiet w fresh)
          (ap (taken id) same ∙ known) in
      (fresh', subst (λ t. Evolves t ((m >>= k) w).1.sessions) same e)

  pub quiet-Revokes : {A : Type 0} (id : String) (m : Action A) → IsQuiet m → Revokes id m
  quiet-Revokes id m quiet w fresh known = quiet-IsLawful m quiet w fresh

  pub then-Opens :
      {A B : Type 0} (id : String) (m : Action A) (k : A → Action B)
      → Opens id m
      → ((a : A) → IsLawful (k a))
      → Opens id (m >>= k)
  then-Opens id m k opens rest w reserved =
      let (fresh', e) = opens w reserved in
      let (fresh'', e') = continue-IsLawful (m w).0 k rest (m w).1 fresh' in
      (fresh'', Evolves-trans e e')

  pub bind_quiet-IsLawful :
      {A B : Type 0} (m : Action A) (k : A → Action B)
      → IsQuiet m
      → ((a : A) → IsLawful (k a))
      → IsLawful (m >>= k)
  bind_quiet-IsLawful m k quiet rest w fresh =
      bind-IsLawful m k (quiet-IsLawful m quiet) rest w fresh

  pub then_quiet-Opens :
      {A B : Type 0} (id : String) (m : Action A) (k : A → Action B)
      → Opens id m
      → ((a : A) → IsQuiet (k a))
      → Opens id (m >>= k)
  then_quiet-Opens id m k opens quiet w reserved =
      then-Opens id m k opens (λ a. quiet-IsLawful (k a) (quiet a)) w reserved
