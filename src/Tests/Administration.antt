-- ===== src/Tests/Administration.antt =====
-- A role that is assigned.
use bankos.Prelude.{String, ◌≡◌, ◌↔◌, ◌⊎◌, refl, false, none, [], ◌∷◌, ok}
use bankos.Database.Memory.{memory_create}
use bankos.Database.Rows.{RoleRow}
use bankos.Events.{dispatch}
use bankos.Events.Untouched.{dispatch-Keeps}
use bankos.Repository.Membership.{Has, roles_part}
use bankos.Repository.Users as Users
use bankos.Runtime.World.{World}
use bankos.Service.Administration.{assign_role}
use bankos.Service.Administration.Assigned.{assign_role_iff}
use bankos.Tests.Environment.{ada, packages, world, prisma-IsPrisma}

abbrev auditor : RoleRow
auditor = record {
  id = "r1";
  name = "auditor";
  description = none;
  system_role = false;
  parent_id = none;
  created_at = 1;
  updated_at = 1;
}

abbrev before : World
before = record world { roles = auditor ∷ [] }

abbrev after : World
after = record before { user_roles = record { user_id = "u1"; role_id = "r1" } ∷ [] }

accepted : Users.assign_role packages "u1" "auditor" before ≡ (ok tt, after)
unfolding Users.assign_role Users.role_named Users.assign_found memory_create
accepted = refl

assign_role_iff_example :
    Has packages prisma-IsPrisma "u1" "auditor"
      (assign_role packages (dispatch packages) "u1" "auditor" before).1
    ↔ (Has packages prisma-IsPrisma "u1" "auditor" before
        ⊎ ((◌≡◌ {A = String} "u1" "u1") × (◌≡◌ {A = String} "auditor" "auditor")))
assign_role_iff_example =
    assign_role_iff packages prisma-IsPrisma (dispatch packages)
      (dispatch-Keeps packages roles_part (λ w log draws ticks. refl)) "u1" "auditor" ada auditor
      before after refl refl refl accepted "u1" "auditor"
