-- ===== src/Crypto/Passwords.antt =====
-- crypto/Argon2PasswordHasher.ts. The costs are options of the package's call.
use Prim.Native.String
use bankos.Prelude.{◌+◌, String, Bool, false, Option, none, some, ◌===◌, if◌then◌else◌, ok}
use bankos.Config.{Config}
use bankos.Runtime.Packages.{Packages}
use bankos.Runtime.Action.{Action}

unfoldable pub pepper_of : Option String → String → String
pepper_of none password = password
pepper_of (some pepper) password = if pepper === "" then password else String.◌++◌ password pepper

module _ (env : Packages) (config : Config) where
  unfoldable pub apply_pepper : String → String
  unfolding pepper_of
  apply_pepper password = pepper_of config.pepper password

  unfoldable pub hash : String → Action String
  unfolding apply_pepper
  hash password w =
      (ok (env.argon2_hash w.draws (apply_pepper password)), record w { draws = w.draws + 1 })

  -- A malformed hash, at which the package throws, verifies nothing.
  unfoldable pub verify : String → String → Bool
  unfolding apply_pepper
  verify stored_hash plain = elim (env.argon2_verify stored_hash (apply_pepper plain)) [
    | none ↦ false
    | some b ↦ b
  ]
