-- ===== src/Engine/Resolver/Termination.antt =====
-- `collectRoles` ends, also where the parents of the roles form a cycle.
use bankos.Prelude.{
  ℕ, zero, suc, ◌≤◌, ◌<◌, String, ◌≡◌, refl, false, inl, inr, some, not, List, [], ◌∷◌, ◌++◌, arith,
  length, keep, includes, includes-append, ===_iff, ===-refl, Bool-cases, Option-cases,
}
use bankos.Domain.Access.{Role}
use bankos.Engine.Resolver.{
  role_map_get, parent_role, collect_roles, collect_all, resolve_effective_roles,
}

-- The number of roles that are not collected yet.
missing : List String → List Role → ℕ
missing effective roles = length (keep (λ (r : Role). not (includes effective r.name)) roles)

missing-le-length :
    (effective : List String) (roles : List Role) → missing effective roles ≤ length roles
unfolding missing
missing-le-length effective [] = omega arith
missing-le-length effective (r ∷ rs) = ground (arith, missing-le-length effective rs)

missing-append_le :
    (effective : List String) (name : String) (roles : List Role)
    → missing (effective ++ name ∷ []) roles ≤ missing effective roles
unfolding missing
missing-append_le effective name [] = omega arith
missing-append_le effective name (r ∷ rs) =
    ground (arith, missing-append_le effective name rs, includes-append effective name r.name)

missing-append_lt :
    (effective : List String) (name : String) (roles : List Role) {role : Role}
    → role_map_get roles name ≡ some role
    → includes effective name ≡ false
    → missing (effective ++ name ∷ []) roles < missing effective roles
unfolding missing role_map_get
missing-append_lt effective name [] e h = cc
missing-append_lt effective name (r ∷ rs) e h = elim (Option-cases (role_map_get rs name)) [
  | inr (later, found) ↦
      ground
        (arith, missing-append_lt effective name rs found h, includes-append effective name r.name)
  | inl unseen ↦
      let same : r.name ≡ name = (===_iff r.name name).0 (ground arith) in
      rw (same, h, includes-append effective name name, ===-refl name)
        (ground (arith, missing-append_le effective name rs))
]

module _ (roles : List Role) where
  collect_roles_total :
      (fuel : ℕ) (name : String) (effective : List String)
      → missing effective roles < fuel
      → (result : List String) × (collect_roles roles fuel name effective ≡ some result)
  unfolding collect_roles
  collect_roles_total zero name effective h = absurd (omega arith)
  collect_roles_total (suc fuel) name effective h = elim (Bool-cases (includes effective name)) [
    | inl seen ↦ (effective, rw (seen, collect_roles))
    | inr new ↦ elim (Option-cases (role_map_get roles name)) [
      | inl unknown ↦ (effective, rw (new, unknown, collect_roles))
      | inr (role, known) ↦ elim (Option-cases (parent_role roles role)) [
        | inl top ↦ (effective ++ name ∷ [], rw (new, known, top, collect_roles))
        | inr (parent, e) ↦
            rw (new, known, e, collect_roles)
              (collect_roles_total fuel parent.name (effective ++ name ∷ [])
                (omega (arith, missing-append_lt effective name roles known new)))
      ]
    ]
  ]

  collect_all_total :
      (names effective : List String)
      → (result : List String) × (collect_all roles (suc (length roles)) names effective
          ≡ some result)
  unfolding collect_all
  collect_all_total [] effective = (effective, refl)
  collect_all_total (name ∷ names) effective =
      let (next, e) =
        collect_roles_total (suc (length roles)) name effective
          (omega (arith, missing-le-length effective roles)) in
      rw (e, collect_all) (collect_all_total names next)

-- Whatever the roles and their parents, cycles included, the names resolve: the fuel is enough.
pub resolve_effective_roles_total :
    (roles : List Role) (names : List String)
    → (result : List String) × (resolve_effective_roles roles names ≡ some result)
unfolding resolve_effective_roles
resolve_effective_roles_total roles names = collect_all_total roles names []
