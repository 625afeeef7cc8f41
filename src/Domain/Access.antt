-- ===== src/Domain/Access.antt =====
-- core/domain/Role.ts and core/domain/Permission.ts. A date is its time in milliseconds.
use bankos.Prelude.{ℕ, String, Bool, Option}

pub record Role : Type 0 where
  pub id : String
  pub name : String
  pub description : Option String
  pub system_role : Bool
  pub parent_id : Option String
  pub created_at : ℕ
  pub updated_at : ℕ

pub record Permission : Type 0 where
  pub id : String
  pub name : String
  pub resource : String
  pub action : String
  pub description : String
  pub created_at : ℕ
  pub updated_at : ℕ
