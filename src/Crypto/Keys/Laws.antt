-- ===== src/Crypto/Keys/Laws.antt =====
-- What a key manager guarantees once it is constructed.
use bankos.Prelude.{
  String, ◌≡◌, ◌≢◌, refl, ap, some, List, [], ◌∷◌, arith, ===_iff, Option-cases, inl, inr, ok,
}
use bankos.Crypto.Keys.{
  KeyPair, KeyRecord, key_of, KeyManager, new_key_manager, get_active_key_id, get_active_key,
  get_key, get_all_public_keys, Jwk, build_jwks,
}

-- A constructed manager has the configured keys and can sign: its active key is one of them and has
-- a private part that is not empty.
pub new_key_manager_signs :
    (keys : KeyRecord) (active_key_id : String) {m : KeyManager}
    → new_key_manager keys active_key_id ≡ ok m
    → (m.keys ≡ keys)
      × (get_active_key_id m ≡ active_key_id)
      × ((pair : KeyPair) × (private_key : String) × (get_active_key m ≡ some pair)
          × (get_key m (get_active_key_id m) ≡ some pair)
          × (pair.private_key ≡ some private_key)
          × (private_key ≢ ""))
unfolding new_key_manager get_active_key_id get_active_key get_key
new_key_manager_signs keys active_key_id {m} h = elim (Option-cases (key_of keys active_key_id)) [
  | inl missing ↦ cc (rw missing at h)
  | inr (pair, found) ↦ elim (Option-cases pair.private_key) [
    | inl public_only ↦ ground arith
    | inr (k, private) ↦ (
      ground arith,
      ground arith,
      (pair, k, ground arith, ground arith, private, ground (arith, ===_iff k "")),
    )
  ]
]

unfoldable pub public_parts : KeyRecord → List (String × String)
public_parts [] = []
public_parts ((kid, pair) ∷ keys) = (kid, pair.public_key) ∷ public_parts keys

get_all_public_keys_lem :
    (keys : KeyRecord) (active : String)
    → get_all_public_keys (record { keys = keys; active_key_id = active }) ≡ public_parts keys
unfolding get_all_public_keys public_parts
get_all_public_keys_lem [] active = refl
get_all_public_keys_lem ((kid, pair) ∷ keys) active =
    ap (λ ks. (kid, pair.public_key) ∷ ks) (get_all_public_keys_lem keys active)

-- What is published depends on the public parts alone: two managers whose key records have the same
-- ids and the same public keys publish the same set, whatever their private keys and active keys are.
pub build_jwks_public :
    (export_jwk : String → Jwk) (m m' : KeyManager)
    → public_parts m.keys ≡ public_parts m'.keys
    → build_jwks export_jwk m ≡ build_jwks export_jwk m'
unfolding build_jwks
build_jwks_public export_jwk m m' h = simp (
  get_all_public_keys_lem m.keys m.active_key_id,
  get_all_public_keys_lem m'.keys m'.active_key_id,
  h,
)
