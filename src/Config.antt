-- ===== src/Config.antt =====
-- The parts of config/index.ts that the services read: the JWT settings and the pepper.
use bankos.Prelude.{String, Option}

pub record Config : Type 0 where
  pub access_expiration : String
  pub refresh_expiration : String
  pub issuer : String
  pub audience : String
  pub pepper : Option String
