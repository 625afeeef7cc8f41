-- ===== src/Crypto/Keys.antt =====
-- crypto/keys/KeyLoader.ts, crypto/keys/KeyManager.ts and crypto/keys/JwksBuilder.ts. The key record is
-- an association list, whose first entry for a `kid` counts.
pub mod Laws
use Prim.Native.String
use bankos.Prelude.{
  String, Bool, true, false, not, Option, none, some, List, [], ◌∷◌, map, ◌===◌, if◌then◌else◌,
  Result, ok, err, failure,
}

pub record KeyPair : Type 0 where
  pub public_key : String
  pub private_key : Option String

abbrev pub KeyRecord : Type 0
KeyRecord = List (String × KeyPair)

unfoldable pub key_of : KeyRecord → String → Option KeyPair
key_of [] kid = none
key_of ((k, pair) ∷ keys) kid = if k === kid then some pair else key_of keys kid

pub record KeyManager : Type 0 where
  pub keys : KeyRecord
  pub active_key_id : String

-- `!privateKey`: undefined or empty.
unfoldable pub has_private : KeyPair → Bool
has_private pair = elim pair.private_key [ none ↦ false | some k ↦ not (k === "") ]

unfoldable pub check_active : String → KeyRecord → Option KeyPair → Result KeyManager
unfolding has_private
check_active active_key_id keys none = err (
    failure (
      String.◌++◌ "Active key with kid '"
        (String.◌++◌ active_key_id "' not found in key configuration")))
check_active active_key_id keys (some pair) =
    if has_private pair
    then ok (record { keys = keys; active_key_id = active_key_id })
    else err (
        failure (
          String.◌++◌ "Active key with kid '"
            (String.◌++◌ active_key_id "' must contain a privateKey for signing")))

-- The constructor, which reloads: the loader hands over the configured keys.
unfoldable pub new_key_manager : KeyRecord → String → Result KeyManager
unfolding check_active
new_key_manager keys_config active_key_id =
    check_active active_key_id keys_config (key_of keys_config active_key_id)

unfoldable pub get_active_key_id : KeyManager → String
get_active_key_id m = m.active_key_id

unfoldable pub get_active_key : KeyManager → Option KeyPair
get_active_key m = key_of m.keys m.active_key_id

unfoldable pub get_key : KeyManager → String → Option KeyPair
get_key m kid = key_of m.keys kid

unfoldable pub get_all_public_keys : KeyManager → List (String × String)
get_all_public_keys m = map (λ e. (e.0, (e.1).public_key)) m.keys

pub record JwkKey : Type 0 where
  pub kid : String
  pub kty : String
  pub alg : String
  pub key_use : String
  pub n : String
  pub e : String

-- The parts of a public key in the JWK format.
pub record Jwk : Type 0 where
  pub kty : String
  pub n : String
  pub e : String

-- `createPublicKey(pem).export({ format: 'jwk' })`, of node's crypto, is an argument.
unfoldable pub build_jwks : (String → Jwk) → KeyManager → List JwkKey
unfolding get_all_public_keys
build_jwks export_jwk m =
    map
      (λ entry.
        let jwk = export_jwk entry.1 in
        record {
          kid = entry.0;
          kty = jwk.kty;
          alg = "RS256";
          key_use = "sig";
          n = jwk.n;
          e = jwk.e;
        })
      (get_all_public_keys m)
