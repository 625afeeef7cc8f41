-- ===== src/Repository/Membership.antt =====
-- Which roles a user has: what PrismaUserRepository.findRoles lists.
use mathlib.Core.Option
use bankos.Prelude.{
  String, ◌≡◌, ◌⊎◌, refl, sym, ap, subst, ◌∙◌, inl, inr, true, Option, none, some, List, [], ◌∷◌,
  ◌++◌, first, Elem, here, there, Elem-cons, ◌===◌, Option-cases, ok,
}
use bankos.Database.{IsPrisma}
use bankos.Database.Rows.{RoleRow, UserRoleRow}
use bankos.Repository.Users as Users
use bankos.Runtime.Packages.{Packages}
use bankos.Runtime.World.{World}

module _ {A B : Type 0} (f : A → Option B) where
  included-none :
      (x : A) (xs : List A) → f x ≡ none → Users.included f (x ∷ xs) ≡ Users.included f xs
  unfolding Users.included
  included-none x xs absent = rw (absent, Users.included) refl

  included-some :
      (x : A) (xs : List A) (y : B)
      → f x ≡ some y
      → Users.included f (x ∷ xs) ≡ y ∷ Users.included f xs
  unfolding Users.included
  included-some x xs y given = rw (given, Users.included) refl

  included_nil : Users.included f [] ≡ []
  unfolding Users.included
  included_nil = refl

  included_sound :
      (xs : List A) (b : B) → Elem b (Users.included f xs) → (a : A) × Elem a xs × (f a ≡ some b)
  included_sound [] b m = elim (rw included_nil at m) [ ]
  included_sound (x ∷ xs) b m = elim (Option-cases (f x)) [
    | inl absent ↦
        let (a, later, hit) = included_sound xs b (rw (included-none x xs absent) at m) in
        (a, there later, hit)
    | inr (y, given) ↦ elim (Elem-cons (rw (included-some x xs y given) at m)) [
      | inl same ↦ (x, here, given ∙ ap some (sym same))
      | inr n ↦ let (a, later, hit) = included_sound xs b n in (a, there later, hit)
    ]
  ]

  included_complete :
      (xs : List A) (a : A) (b : B) → Elem a xs → f a ≡ some b → Elem b (Users.included f xs)
  included_complete [] a b m hit = elim m [ ]
  included_complete (_ ∷ xs) a b here hit = rw (included-some a xs b hit) here
  included_complete (x ∷ xs) a b (there m) hit = elim (Option-cases (f x)) [
    | inl absent ↦ rw (included-none x xs absent) (included_complete xs a b m hit)
    | inr (y, given) ↦ rw (included-some x xs y given) (there (included_complete xs a b m hit))
  ]

pub Elem-snoc : {A : Type 0} (a x : A) (xs : List A) → Elem a (xs ++ x ∷ []) → Elem a xs ⊎ (a ≡ x)
Elem-snoc a x [] m = elim (Elem-cons m) [ inl same ↦ inr same | inr n ↦ elim n [ ] ]
Elem-snoc a x (y ∷ xs) m = elim (Elem-cons m) [
  | inl same ↦ inl (rw same here)
  | inr n ↦ elim (Elem-snoc a x xs n) [ inl old ↦ inl (there old) | inr new ↦ inr new ]
]

pub snoc-Elem : {A : Type 0} (a x : A) (xs : List A) → Elem a xs ⊎ (a ≡ x) → Elem a (xs ++ x ∷ [])
snoc-Elem a x [] (inl m) = elim m [ ]
snoc-Elem a x [] (inr same) = rw same here
snoc-Elem a x (_ ∷ xs) (inl here) = here
snoc-Elem a x (y ∷ xs) (inl (there m)) = there (snoc-Elem a x xs (inl m))
snoc-Elem a x (y ∷ xs) (inr same) = there (snoc-Elem a x xs (inr same))

-- A row of the join table gives the user the role, by the role's id.
abbrev pub Links : String → String → List RoleRow → UserRoleRow → Type 0
Links user_id name roles ur =
    ((ur.user_id === user_id) ≡ true)
    × (Option.map (λ (r : RoleRow). r.name) (first (λ r. r.id === ur.role_id) roles) ≡ some name)

-- The part of the state that says which roles a user has.
abbrev pub roles_part : World → List RoleRow × List UserRoleRow
roles_part w = (w.roles, w.user_roles)

module _ (env : Packages) (laws : IsPrisma env.prisma) where
  -- The user has the role of that name.
  abbrev pub Has : (user_id name : String) → World → Type 0
  Has user_id name w =
      (names : List String) × (Users.find_roles env user_id w ≡ (ok names, w)) × Elem name names

  abbrev pub Linked : String → String → World → Type 0
  Linked user_id name w = (ur : UserRoleRow) × Elem ur w.user_roles × Links user_id name w.roles ur

  role_name_of : (w : World) → UserRoleRow → Option String
  role_name_of w ur = Option.map (λ (r : RoleRow). r.name) (Users.included_role env w ur)

  role_name_lem :
      (w : World) (ur : UserRoleRow)
      → role_name_of w ur
        ≡ Option.map (λ (r : RoleRow). r.name) (first (λ r. r.id === ur.role_id) w.roles)
  unfolding role_name_of Users.included_role
  role_name_lem w ur = rw laws.role_laws.find_unique_lem refl

  roles_listed : (user_id : String) (w : World) → List String
  roles_listed user_id w =
      Users.included (role_name_of w)
        (env.prisma.user_role.find_many (λ ur. ur.user_id === user_id) w.user_roles)

  find_roles_lem :
      (user_id : String) (w : World)
      → Users.find_roles env user_id w ≡ (ok (roles_listed user_id w), w)
  unfolding Users.find_roles roles_listed role_name_of
  find_roles_lem user_id w = refl

  pub Has-Linked : (user_id name : String) (w : World) → Has user_id name w → Linked user_id name w
  unfolding roles_listed
  Has-Linked user_id name w (names, given, m) =
      let same : roles_listed user_id w ≡ names = cc (given, find_roles_lem user_id w) in
      let (ur, found, hit) =
        included_sound (role_name_of w)
          (env.prisma.user_role.find_many (λ ur. ur.user_id === user_id) w.user_roles) name
          (subst (Elem name) (sym same) m) in
      let (listed, owned) =
        (laws.user_role_laws.find_many_iff (λ ur. ur.user_id === user_id) w.user_roles ur).0
          found in
      (ur, listed, (owned, sym (role_name_lem w ur) ∙ hit))

  pub Linked-Has : (user_id name : String) (w : World) → Linked user_id name w → Has user_id name w
  unfolding roles_listed
  Linked-Has user_id name w (ur, listed, (owned, hit)) = (
    roles_listed user_id w,
    find_roles_lem user_id w,
    included_complete (role_name_of w) _ ur name
        ((laws.user_role_laws.find_many_iff (λ ur. ur.user_id === user_id) w.user_roles ur).1
          (listed, owned))
        (role_name_lem w ur ∙ hit),
  )

  same-Linked :
      (u n : String) (w w' : World) → roles_part w' ≡ roles_part w → Linked u n w → Linked u n w'
  same-Linked u n w w' same linked =
      subst (λ p. (ur : UserRoleRow) × Elem ur p.1 × Links u n p.0 ur) (sym same) linked

  pub same-Has :
      (u n : String) (w w' : World) → roles_part w' ≡ roles_part w → Has u n w → Has u n w'
  same-Has u n w w' same has = Linked-Has u n w' (same-Linked u n w w' same (Has-Linked u n w has))
