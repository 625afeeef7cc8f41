-- ===== src/Service/Administration/Assigned.antt =====
-- AssignRoleService: which roles a user has once one was assigned.
use bankos.Prelude.{
  String, ◌≡◌, ◌↔◌, ◌⊎◌, refl, sym, ap, subst, ◌∙◌, inl, inr, Bool, true, false, none, some, List,
  [], ◌∷◌, ◌++◌, any, first, any_sound, Elem, ◌===◌, ◌&&◌, ===_iff, ===-refl, if◌then◌else◌, ok,
  err, arith,
}
use bankos.Database.{IsPrisma}
use bankos.Database.Delegate.{update_where}
use bankos.Database.Rows.{RoleRow, UserRoleRow, UserRow}
use bankos.Domain.Event.{Event, new_event, role_assigned_to_user}
use bankos.Repository.Laws.{first_holds}
use bankos.Repository.Roles as Roles
use bankos.Repository.Users as Users
use bankos.Runtime.Action.{Action, stored, database_error}
use bankos.Runtime.Keeps.{Keeps}
use bankos.Runtime.Packages.{Packages}
use bankos.Runtime.World.{World}
use bankos.Service.Administration.{assign_role}
use bankos.Repository.Membership.{
  Elem-snoc, snoc-Elem, Links, Has, Linked, Has-Linked, Linked-Has, roles_part, same-Has,
}

update_where-same : {Row : Type 0} (p : Row → Bool) (t : List Row) → update_where p (λ r. r) t ≡ t
unfolding update_where
update_where-same p [] = refl
update_where-same p (r ∷ t) = ground (arith, update_where-same p t)

module _ (env : Packages) (laws : IsPrisma env.prisma) where
  module _ (user_id role_name : String) (role : RoleRow) where
    abbrev names_row : UserRoleRow → Bool
    names_row r = r.user_id === user_id && r.role_id === role.id

    abbrev new_row : UserRoleRow
    new_row = record { user_id = user_id; role_id = role.id }

    -- What a successful assignment leaves in the join table.
    Assigned : World → World → Type 0
    Assigned w w' =
        (w'.roles ≡ w.roles)
        × (((w'.user_roles ≡ w.user_roles) × (any names_row w.user_roles ≡ true))
            ⊎ (w'.user_roles ≡ w.user_roles ++ new_row ∷ []))

    stored-Assigned :
        (known accepted : Bool) (w w' : World)
        → any names_row w.user_roles ≡ known
        → stored
            (if known
              then some (update_where names_row (λ r. r) w.user_roles)
              else if accepted
              then some (w.user_roles ++ new_row ∷ [])
              else none)
            (λ t. record w { user_roles = t })
            database_error
            w
          ≡ (ok tt, w')
        → Assigned w w'
    unfolding Assigned
    stored-Assigned true accepted w w' known done =
        let after = ap (λ r. r.1) done in
        (
          sym (ap (λ v. v.roles) after),
          inl (
            sym (ap (λ v. v.user_roles) after) ∙ update_where-same names_row w.user_roles,
            known,
          ),
        )
    stored-Assigned false true w w' known done =
        let after = ap (λ r. r.1) done in
        (sym (ap (λ v. v.roles) after), inr (sym (ap (λ v. v.user_roles) after)))
    stored-Assigned false false w w' known done =
        let differ : err database_error ≡ ok tt = ap (λ r. r.0) done in cc

    assign_role_lem :
        (w : World)
        → first (λ r. r.name === role_name) w.roles ≡ some role
        → Users.assign_role env user_id role_name w
          ≡ stored
              (if any names_row w.user_roles
                then some (update_where names_row (λ r. r) w.user_roles)
                else if laws.user_role_laws.accepts new_row w.user_roles
                then some (w.user_roles ++ new_row ∷ [])
                else none)
              (λ t. record w { user_roles = t })
              database_error
              w
    unfolding Users.assign_role Users.role_named Users.assign_found
    assign_role_lem w named =
        rw
          (
            laws.role_laws.find_unique_lem,
            named,
            laws.user_role_laws.upsert_lem names_row (λ r. r) new_row w.user_roles (λ r t. refl),
            laws.user_role_laws.create_lem new_row w.user_roles,
          )
          refl

    assign-Assigned :
        (w w' : World)
        → first (λ r. r.name === role_name) w.roles ≡ some role
        → Users.assign_role env user_id role_name w ≡ (ok tt, w')
        → Assigned w w'
    assign-Assigned w w' named done =
        stored-Assigned (any names_row w.user_roles)
          (laws.user_role_laws.accepts new_row w.user_roles) w w' refl
          (sym (assign_role_lem w named) ∙ done)

    -- The links after an assignment.
    module _ (w w' : World) (named : first (λ r. r.name === role_name) w.roles ≡ some role)
        (unique : first (λ r. r.id === role.id) w.roles ≡ some role)
        (assigned : Assigned w w') where
      new-Links : Links user_id role_name w.roles new_row
      new-Links = (===-refl user_id, rw unique (ap some ((===_iff role.name role_name).0 holds)))
        where
          holds : (role.name === role_name) ≡ true
          holds = first_holds (λ (r : RoleRow). r.name === role_name) w.roles role named

      Links-new : (u n : String) → Links u n w.roles new_row → (u ≡ user_id) × (n ≡ role_name)
      Links-new u n (owned, hit) =
          let holds = first_holds (λ (r : RoleRow). r.name === role_name) w.roles role named in
          let called : role.name ≡ role_name = (===_iff role.name role_name).0 holds in
          let hit' : some role.name ≡ some n = rw unique at hit in
          (sym ((===_iff user_id u).0 owned), cc (hit', called))

      roles_same : w'.roles ≡ w.roles
      unfolding Assigned
      roles_same = assigned.0

      relink : (u n : String) (ur : UserRoleRow) → Links u n w.roles ur → Links u n w'.roles ur
      relink u n ur links = subst (λ roles. Links u n roles ur) (sym roles_same) links

      still-Linked : (u n : String) → Linked env laws u n w → Linked env laws u n w'
      unfolding Assigned
      still-Linked u n (ur, listed, links) = elim assigned.1 [
        | inl (same, _) ↦ (ur, subst (Elem ur) (sym same) listed, relink u n ur links)
        | inr added ↦ (
          ur,
          subst (Elem ur) (sym added) (snoc-Elem ur new_row w.user_roles (inl listed)),
          relink u n ur links,
        )
      ]

      Linked-already : any names_row w.user_roles ≡ true → Linked env laws user_id role_name w
      Linked-already known =
          let (ur, listed, fits) = any_sound names_row w.user_roles known in
          let (owned, linked) = both (ur.user_id === user_id) (ur.role_id === role.id) fits in
          let same : ur.role_id ≡ role.id = (===_iff ur.role_id role.id).0 linked in
          (ur, listed, (owned, rw same new-Links.1))
        where
          both : (a b : Bool) → (a && b) ≡ true → (a ≡ true) × (b ≡ true)
          both true true h = (refl, refl)
          both true false h = cc
          both false b h = cc

      gains-Linked : Linked env laws user_id role_name w'
      unfolding Assigned
      gains-Linked = elim assigned.1 [
        | inl (same, known) ↦ still-Linked user_id role_name (Linked-already known)
        | inr added ↦ (
          new_row,
          subst (Elem new_row) (sym added) (snoc-Elem new_row new_row w.user_roles (inr refl)),
          relink user_id role_name new_row new-Links,
        )
      ]

      only-Linked :
          (u n : String)
          → Linked env laws u n w'
          → Linked env laws u n w ⊎ ((u ≡ user_id) × (n ≡ role_name))
      unfolding Assigned
      only-Linked u n (ur, listed, links) =
          let links' = subst (λ roles. Links u n roles ur) roles_same links in
          elim assigned.1 [
            | inl (same, _) ↦ inl (ur, subst (Elem ur) same listed, links')
            | inr added ↦ elim (Elem-snoc ur new_row w.user_roles (subst (Elem ur) added listed)) [
              | inl old ↦ inl (ur, old, links')
              | inr new ↦ inr (Links-new u n (subst (Links u n w.roles) new links'))
            ]
          ]

      assign-Has :
          (u n : String)
          → Has env laws u n w' ↔ (Has env laws u n w ⊎ ((u ≡ user_id) × (n ≡ role_name)))
      assign-Has u n = (
        λ has. elim (only-Linked u n (Has-Linked env laws u n w' has)) [
          | inl old ↦ inl (Linked-Has env laws u n w old)
          | inr new ↦ inr new
        ],
        λ either. elim either [
          | inl old ↦ Linked-Has env laws u n w' (still-Linked u n (Has-Linked env laws u n w old))
          | inr (same_user, same_role) ↦
              rw (same_user, same_role) (Linked-Has env laws user_id role_name w' gains-Linked)
        ],
      )

  module _ (dispatch : List Event → Action (Unit {0}))
      (keeps : (events : List Event) → Keeps roles_part (dispatch events)) where
    assigns :
        (user_id role_name : String) (user : UserRow) (role : RoleRow) (w w' : World)
        → first (λ r. r.id === user_id) w.users ≡ some user
        → first (λ r. r.name === role_name) w.roles ≡ some role
        → Users.assign_role env user_id role_name w ≡ (ok tt, w')
        → assign_role env dispatch user_id role_name w
          ≡ dispatch (new_event (role_assigned_to_user user_id role_name) ∷ []) w'
    unfolding assign_role Users.find_by_id Roles.find_by_name
    assigns user_id role_name user role w w' known named done =
        rw (laws.user_laws.find_unique_lem, known, laws.role_laws.find_unique_lem, named, done) refl

    -- Where the user and the role exist, roles have unique ids, the database accepts the row and the
    -- dispatcher writes neither roles nor their assignments: after AssignRoleService, whatever the
    -- dispatch answers, a user has a role exactly if it had it before, or if they are the user and
    -- the role that were assigned. So assigning a role again changes nothing.
    pub assign_role_iff :
        (user_id role_name : String) (user : UserRow) (role : RoleRow) (w w' : World)
        → first (λ r. r.id === user_id) w.users ≡ some user
        → first (λ r. r.name === role_name) w.roles ≡ some role
        → first (λ r. r.id === role.id) w.roles ≡ some role
        → Users.assign_role env user_id role_name w ≡ (ok tt, w')
        → (u n : String)
        → Has env laws u n (assign_role env dispatch user_id role_name w).1
          ↔ (Has env laws u n w ⊎ ((u ≡ user_id) × (n ≡ role_name)))
    assign_role_iff user_id role_name user role w w' known named unique done u n =
        let after = (assign_role env dispatch user_id role_name w).1 in
        let same : roles_part after ≡ roles_part w' =
          ap (λ r. roles_part r.1) (assigns user_id role_name user role w w' known named done)
          ∙ keeps (new_event (role_assigned_to_user user_id role_name) ∷ []) w' in
        let (gains, still) =
          assign-Has user_id role_name role w w' named unique
            (assign-Assigned user_id role_name role w w' named done) u n in
        (
          λ has. gains (same-Has env laws u n after w' (sym same) has),
          λ either. same-Has env laws u n w' after same (still either),
        )
