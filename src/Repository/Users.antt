-- ===== src/Repository/Users.antt =====
-- repositories/PrismaUserRepository.ts.
use Prim.Native.String
use mathlib.Core.Option
use bankos.Prelude.{
  String, Bool, Option, none, some, List, [], ◌∷◌, length, ltb, set_add, ◌===◌, ◌&&◌, failure, ok,
  err,
}
use bankos.Domain.User.{User}
use bankos.Database.Rows.{UserRow, RoleRow, UserRoleRow, RolePermissionRow, PermissionRow}
use bankos.Database.Mapper.{to_domain_user, to_prisma_user}
use bankos.Runtime.Packages.{Packages}
use bankos.Runtime.World.{World}
use bankos.Runtime.Action.{Action, gets, ◌>>=◌, stored, database_error}

-- What an `update` of a user writes: not its id and e-mail.
abbrev pub updated_columns : UserRow → UserRow → UserRow
updated_columns new old = record old {
  password_hash = new.password_hash;
  is_locked = new.is_locked;
  failed_login_attempts = new.failed_login_attempts;
  email_verified = new.email_verified;
}

-- A relation that is included: the rows that the foreign keys name.
unfoldable pub included : {A B : Type 0} → (A → Option B) → List A → List B
included f [] = []
included f (a ∷ xs) = elim (f a) [ none ↦ included f xs | some b ↦ b ∷ included f xs ]

module _ (env : Packages) where
  unfoldable pub find_by_id : String → Action (Option User)
  find_by_id id =
      gets λ w. Option.map to_domain_user (env.prisma.user.find_unique (λ r. r.id === id) w.users)

  unfoldable pub find_by_email : String → Action (Option User)
  find_by_email email =
      gets λ w.
        Option.map to_domain_user (env.prisma.user.find_unique (λ r. r.email === email) w.users)

  unfoldable pub exists : String → Action Bool
  exists email =
      gets λ w. ltb 0 (length (env.prisma.user.find_many (λ r. r.email === email) w.users))

  -- `save` is a `create`.
  unfoldable pub save : User → Action (Unit {0})
  save user w =
      stored (env.prisma.user.create (to_prisma_user (env.time w.ticks) user).columns w.users)
        (λ t. record w { users = t }) database_error w

  unfoldable pub update : User → Action (Unit {0})
  update user w =
      stored
        (env.prisma.user.update (λ r. r.id === user.id)
          (updated_columns (to_prisma_user (env.time w.ticks) user).columns) w.users)
        (λ t. record w { users = t }) database_error w

  unfoldable pub role_named : String → Action (Option RoleRow)
  role_named role_name = gets λ w. env.prisma.role.find_unique (λ r. r.name === role_name) w.roles

  unfoldable pub assign_found : String → String → Option RoleRow → Action (Unit {0})
  assign_found user_id role_name none w =
      (err (failure (String.◌++◌ "Role " (String.◌++◌ role_name " not found"))), w)
  assign_found user_id role_name (some role) w =
      stored
        (env.prisma.user_role.upsert (λ r. r.user_id === user_id && r.role_id === role.id) (λ r. r)
          (record { user_id = user_id; role_id = role.id }) w.user_roles)
        (λ t. record w { user_roles = t }) database_error w

  unfoldable pub assign_role : String → String → Action (Unit {0})
  assign_role user_id role_name = do
    role ← role_named role_name
    assign_found user_id role_name role

  -- What the client throws is ignored: the row need not exist.
  unfoldable pub deleted_or_kept : Option (List UserRoleRow) → Action (Unit {0})
  deleted_or_kept none w = (ok tt, w)
  deleted_or_kept (some t) w = (ok tt, record w { user_roles = t })

  unfoldable pub remove_found : String → Option RoleRow → Action (Unit {0})
  remove_found user_id none w = (ok tt, w)
  remove_found user_id (some role) w =
      deleted_or_kept
        (env.prisma.user_role.delete (λ r. r.user_id === user_id && r.role_id === role.id)
          w.user_roles)
        w

  unfoldable pub remove_role : String → String → Action (Unit {0})
  remove_role user_id role_name = do role ← role_named role_name; remove_found user_id role

  -- `include: { role: true }`
  unfoldable pub included_role : World → UserRoleRow → Option RoleRow
  included_role w ur = env.prisma.role.find_unique (λ r. r.id === ur.role_id) w.roles

  unfoldable pub find_roles : String → Action (List String)
  find_roles user_id = gets λ w.
      included (λ ur. Option.map (λ (r : RoleRow). r.name) (included_role w ur))
        (env.prisma.user_role.find_many (λ ur. ur.user_id === user_id) w.user_roles)

  unfoldable pub included_permission : World → RolePermissionRow → Option PermissionRow
  included_permission w rp =
      env.prisma.permission.find_unique (λ p. p.id === rp.permission_id) w.permissions

  unfoldable pub role_permission_names : World → RoleRow → List String
  role_permission_names w role =
      included (λ rp. Option.map (λ (p : PermissionRow). p.name) (included_permission w rp))
        (env.prisma.role_permission.find_many (λ rp. rp.role_id === role.id) w.role_permissions)

  unfoldable pub add_all : List String → List String → List String
  add_all [] acc = acc
  add_all (p ∷ ps) acc = add_all ps (set_add p acc)

  unfoldable pub add_roles : World → List RoleRow → List String → List String
  add_roles w [] acc = acc
  add_roles w (role ∷ roles) acc = add_roles w roles (add_all (role_permission_names w role) acc)

  unfoldable pub find_permissions : String → Action (List String)
  find_permissions user_id = gets λ w.
      add_roles w
        (included (included_role w)
          (env.prisma.user_role.find_many (λ ur. ur.user_id === user_id) w.user_roles))
        []
