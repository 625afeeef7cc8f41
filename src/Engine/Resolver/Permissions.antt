-- ===== src/Engine/Resolver/Permissions.antt =====
-- The resolved permissions are those of all the resolved roles.
use bankos.Prelude.{
  String, ◌≡◌, ◌⊎◌, ◌↔◌, true, inl, inr, some, List, [], ◌∷◌, ◌===◌, ===_iff, arith, Elem, here,
  there, includes, includes-append, includes-Elem, Elem-includes, set_add, set_add_self,
  set_add_weaken, Bool-cases, Option-cases,
}
use bankos.Domain.Access.{Role}
use bankos.Engine.Resolver.{
  role_map_get, resolve_effective_roles, add_each, permissions_from, resolve_effective_permissions,
}
use bankos.Engine.Resolver.Closure.{Inherits, resolve_effective_roles_iff}

set_add_sound :
    (xs : List String) (a b : String)
    → includes (set_add a xs) b ≡ true
    → (includes xs b ≡ true) ⊎ (a ≡ b)
set_add_sound xs a b h = elim (Bool-cases (includes xs a)) [
  | inl old ↦ inl (rw old at h)
  | inr new ↦ elim (Bool-cases (a === b)) [
    | inl same ↦ inr ((===_iff a b).0 same)
    | inr other ↦ inl (ground (arith, includes-append xs a b))
  ]
]

module _ (roles : List Role) (find_permissions : String → List String) where
  add_each_grows :
      (ps acc : List String) (p : String)
      → includes acc p ≡ true
      → includes (add_each roles find_permissions ps acc) p ≡ true
  unfolding add_each
  add_each_grows [] acc p h = h
  add_each_grows (q ∷ ps) acc p h = add_each_grows ps (set_add q acc) p (set_add_weaken acc q p h)

  add_each_adds :
      (ps acc : List String) (p : String)
      → Elem p ps
      → includes (add_each roles find_permissions ps acc) p ≡ true
  unfolding add_each
  add_each_adds [] acc p m = elim m [ ]
  add_each_adds (_ ∷ ps) acc p here = add_each_grows ps (set_add p acc) p (set_add_self acc p)
  add_each_adds (q ∷ ps) acc p (there m) = add_each_adds ps (set_add q acc) p m

  add_each_sound :
      (ps acc : List String) (p : String)
      → includes (add_each roles find_permissions ps acc) p ≡ true
      → (includes acc p ≡ true) ⊎ Elem p ps
  unfolding add_each
  add_each_sound [] acc p h = inl h
  add_each_sound (q ∷ ps) acc p h = elim (add_each_sound ps (set_add q acc) p h) [
    | inr later ↦ inr (there later)
    | inl early ↦ elim (set_add_sound acc q p early) [
      | inl old ↦ inl old
      | inr same ↦ inr (rw same here)
    ]
  ]

  -- The permission stands at one of the named roles.
  pub record HeldBy (names : List String) (p : String) : Type 0 where
    pub holder : String
    pub listed : Elem holder names
    pub role : Role
    pub known : role_map_get roles holder ≡ some role
    pub granted : Elem p (find_permissions role.id)

  HeldBy-cons :
      (name : String) (names : List String) (p : String) → HeldBy names p → HeldBy (name ∷ names) p
  HeldBy-cons name names p h = record {
    holder = h.holder;
    listed = there h.listed;
    role = h.role;
    known = h.known;
    granted = h.granted;
  }

  permissions_from_grows :
      (names acc : List String) (p : String)
      → includes acc p ≡ true
      → includes (permissions_from roles find_permissions names acc) p ≡ true
  unfolding permissions_from
  permissions_from_grows [] acc p h = h
  permissions_from_grows (name ∷ names) acc p h = elim (Option-cases (role_map_get roles name)) [
    | inl unknown ↦ rw (unknown, permissions_from) (permissions_from_grows names acc p h)
    | inr (role, known) ↦
        rw (known, permissions_from)
          (permissions_from_grows names _ p (add_each_grows (find_permissions role.id) acc p h))
  ]

  permissions_from_sound :
      (names acc : List String) (p : String)
      → includes (permissions_from roles find_permissions names acc) p ≡ true
      → (includes acc p ≡ true) ⊎ HeldBy names p
  unfolding permissions_from
  permissions_from_sound [] acc p h = inl h
  permissions_from_sound (name ∷ names) acc p h = elim (Option-cases (role_map_get roles name)) [
    | inl unknown ↦
        elim (permissions_from_sound names acc p (rw (unknown, permissions_from) at h)) [
          | inl old ↦ inl old
          | inr held ↦ inr (HeldBy-cons name names p held)
        ]
    | inr (role, known) ↦
        elim (permissions_from_sound names _ p (rw (known, permissions_from) at h)) [
          | inr held ↦ inr (HeldBy-cons name names p held)
          | inl early ↦ elim (add_each_sound (find_permissions role.id) acc p early) [
            | inl old ↦ inl old
            | inr granted ↦ inr (record {
              holder = name;
              listed = here;
              role = role;
              known = known;
              granted = granted;
            })
          ]
        ]
  ]

  permissions_from_adds :
      (name : String) (names acc : List String) (p : String) (role : Role)
      → Elem name names
      → role_map_get roles name ≡ some role
      → Elem p (find_permissions role.id)
      → includes (permissions_from roles find_permissions names acc) p ≡ true
  unfolding permissions_from
  permissions_from_adds name [] acc p role m known granted = elim m [ ]
  permissions_from_adds name (_ ∷ names) acc p role here known granted =
      rw (known, permissions_from)
        (permissions_from_grows names _ p (add_each_adds (find_permissions role.id) acc p granted))
  permissions_from_adds name (n ∷ names) acc p role (there m) known granted =
      elim (Option-cases (role_map_get roles n)) [
        | inl unknown ↦
            rw (unknown, permissions_from)
              (permissions_from_adds name names acc p role m known granted)
        | inr (other, e) ↦
            rw (e, permissions_from) (permissions_from_adds name names _ p role m known granted)
      ]

-- The permission is one of a role that a given name inherits from.
pub record IsInherited (roles : List Role) (find_permissions : String → List String)
    (names : List String) (p : String) : Type 0 where
  pub name : String
  pub listed : Elem name names
  pub ancestor : String
  pub above : Inherits roles name ancestor
  pub role : Role
  pub known : role_map_get roles ancestor ≡ some role
  pub granted : Elem p (find_permissions role.id)

-- A permission is resolved exactly when it is a permission of a role that one of the given names
-- is or inherits from.
pub resolve_effective_permissions_iff :
    (roles : List Role) (find_permissions : String → List String) (names result : List String)
    (p : String)
    → resolve_effective_permissions roles find_permissions names ≡ some result
    → (includes result p ≡ true) ↔ IsInherited roles find_permissions names p
unfolding resolve_effective_permissions
resolve_effective_permissions_iff roles find_permissions names result p e =
    elim (Option-cases (resolve_effective_roles roles names)) [
      | inl stuck ↦ cc (rw (stuck, resolve_effective_permissions) at e)
      | inr (effective, resolved) ↦
          let same : permissions_from roles find_permissions effective [] ≡ result = ground arith in
          rw (← same) (sound effective resolved, complete effective resolved)
    ]
  where
    sound :
        (effective : List String)
        → resolve_effective_roles roles names ≡ some effective
        → includes (permissions_from roles find_permissions effective []) p ≡ true
        → IsInherited roles find_permissions names p
    sound effective resolved h =
        elim (permissions_from_sound roles find_permissions effective [] p h) [
          | inl old ↦ cc
          | inr held ↦
              let ((to, _), _) =
                resolve_effective_roles_iff roles names effective held.holder resolved in
              let (name, listed, above) = to (Elem-includes effective held.holder held.listed) in
              record {
                name = name;
                listed = listed;
                ancestor = held.holder;
                above = above;
                role = held.role;
                known = held.known;
                granted = held.granted;
              }
        ]

    complete :
        (effective : List String)
        → resolve_effective_roles roles names ≡ some effective
        → IsInherited roles find_permissions names p
        → includes (permissions_from roles find_permissions effective []) p ≡ true
    complete effective resolved i =
        let within =
          (resolve_effective_roles_iff roles names effective i.ancestor resolved).0.1
            (i.name, i.listed, i.above) in
        permissions_from_adds roles find_permissions i.ancestor effective [] p i.role
          (includes-Elem effective i.ancestor within) i.known i.granted
