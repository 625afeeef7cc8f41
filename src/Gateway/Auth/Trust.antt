-- ===== src/Gateway/Auth/Trust.antt =====
-- Which identity headers a request carries once the gateway has let it in.
use bankos.Prelude.{
  String, ◌≡◌, refl, subst, ap, ◌∙◌, ◌⊎◌, inl, inr, true, false, Option, none, some, List, [], ◌∷◌,
  Elem, here, there, ◌===◌, ===_iff, Bool-cases, includes, includes-Elem,
}
use bankos.Http.{
  Headers, header, delete_header, is_truthy, header_delete_same, header_delete_other,
  header_set_same, header_set_other,
}
use bankos.Gateway.Auth.{
  GatewayClaims, RolesClaim, no_roles, role_list, other_roles, Verified, decoded,
  token_expired_error, json_web_token_error, other_error, next, user_id_of, set_user_id, set_roles,
  inject, admit, check_parts, check_header, authenticate,
}
use bankos.Gateway.Security.{disallowed_headers, delete_truthy, sanitize_headers}
use bankos.Text.{split_spaces, join_commas}

delete_keeps_falsy :
    (name key : String) (h : Headers)
    → is_truthy (header name h) ≡ false
    → is_truthy (header name (delete_header key h)) ≡ false
unfolding is_truthy
delete_keeps_falsy name key h falsy = elim (Bool-cases (name === key)) [
  | inl same ↦ rw ((===_iff name key).0 same, header_delete_same key h) refl
  | inr other ↦ rw (header_delete_other name key h other) falsy
]

delete_truthy_keeps_falsy :
    (names : List String) (name : String) (h : Headers)
    → is_truthy (header name h) ≡ false
    → is_truthy (header name (delete_truthy names h)) ≡ false
unfolding delete_truthy
delete_truthy_keeps_falsy [] name h falsy = falsy
delete_truthy_keeps_falsy (key ∷ names) name h falsy =
    elim (Bool-cases (is_truthy (header key h))) [
      | inl set ↦ rw set (
          delete_truthy_keeps_falsy names name (delete_header key h)
            (delete_keeps_falsy name key h falsy))
      | inr gone ↦ rw gone (delete_truthy_keeps_falsy names name h falsy)
    ]

delete_truthy_removes :
    (names : List String) (name : String) (h : Headers)
    → Elem name names
    → is_truthy (header name (delete_truthy names h)) ≡ false
unfolding delete_truthy is_truthy
delete_truthy_removes [] name h m = elim m [ ]
delete_truthy_removes (_ ∷ names) name h here = elim (Bool-cases (is_truthy (header name h))) [
  | inl set ↦ rw set (
      delete_truthy_keeps_falsy names name (delete_header name h)
        (rw (header_delete_same name h) refl))
  | inr gone ↦ rw gone (delete_truthy_keeps_falsy names name h gone)
]
delete_truthy_removes (key ∷ names) name h (there m) = delete_truthy_removes names name _ m

-- None of the identity headers of the client's request is left with a value.
pub sanitize_removes :
    (name : String) (h : Headers)
    → includes disallowed_headers name ≡ true
    → is_truthy (header name (sanitize_headers h)) ≡ false
unfolding sanitize_headers
sanitize_removes name h listed =
    delete_truthy_removes disallowed_headers name h (includes-Elem disallowed_headers name listed)

user_id_falsy :
    (id : Option String) (h : Headers)
    → is_truthy (header "x-user-id" h) ≡ false
    → (is_truthy (header "x-user-id" (set_user_id id h)) ≡ false)
      ⊎ (header "x-user-id" (set_user_id id h) ≡ id)
unfolding set_user_id
user_id_falsy none h falsy = inl falsy
user_id_falsy (some id) h falsy = elim (Bool-cases (is_truthy (some id))) [
  | inl real ↦ rw real (inr (header_set_same "x-user-id" id h))
  | inr empty ↦ rw empty (inl falsy)
]

user_id_other :
    (name : String) (id : Option String) (h : Headers)
    → (name === "x-user-id") ≡ false
    → ("x-user-id" === name) ≡ false
    → header name (set_user_id id h) ≡ header name h
unfolding set_user_id
user_id_other name none h a b = refl
user_id_other name (some id) h a b = elim (Bool-cases (is_truthy (some id))) [
  | inl real ↦ rw real (header_set_other name "x-user-id" id h b a)
  | inr empty ↦ rw empty refl
]

roles_other :
    (name : String) (roles : RolesClaim) (h : Headers)
    → (name === "x-user-roles") ≡ false
    → ("x-user-roles" === name) ≡ false
    → header name (set_roles roles h) ≡ header name h
unfolding set_roles
roles_other name no_roles h a b = header_set_other name "x-user-roles" _ h b a
roles_other name (role_list roles) h a b = header_set_other name "x-user-roles" _ h b a
roles_other name other_roles h a b = refl

roles_set :
    (roles : RolesClaim) (h : Headers)
    → is_truthy (header "x-user-roles" h) ≡ false
    → (is_truthy (header "x-user-roles" (set_roles roles h)) ≡ false)
      ⊎ ((rs : List String) × (roles ≡ role_list rs)
          × (header "x-user-roles" (set_roles roles h) ≡ some (join_commas rs)))
unfolding set_roles join_commas is_truthy
roles_set no_roles h falsy = inl (rw (header_set_same "x-user-roles" "" h) refl)
roles_set (role_list rs) h falsy = inr (rs, refl, header_set_same "x-user-roles" (join_commas rs) h)
roles_set other_roles h falsy = inl falsy

-- What the headers say that a token with these claims lets in: nothing of the identity of the user
-- but what the claims say.
abbrev pub IsTrusted : GatewayClaims → Headers → Type 0
IsTrusted claims h =
    (header "x-authenticated-user" h ≡ some "true")
    × ((is_truthy (header "x-user-id" h) ≡ false) ⊎ (header "x-user-id" h ≡ user_id_of claims))
    × ((is_truthy (header "x-user-roles" h) ≡ false)
        ⊎ ((rs : List String) × (claims.roles ≡ role_list rs)
            × (header "x-user-roles" h ≡ some (join_commas rs))))
    × (is_truthy (header "x-user-role" h) ≡ false)
    × (is_truthy (header "x-user-email" h) ≡ false)
    × (is_truthy (header "x-forwarded-user" h) ≡ false)

module _ (claims : GatewayClaims) where
  inject_other :
      (name : String) (h : Headers)
      → ((name === "x-user-id") ≡ false) × (("x-user-id" === name) ≡ false)
      → ((name === "x-user-roles") ≡ false) × (("x-user-roles" === name) ≡ false)
      → ((name === "x-authenticated-user") ≡ false) × (("x-authenticated-user" === name) ≡ false)
      → header name (inject claims h) ≡ header name h
  unfolding inject
  inject_other name h (a, b) (c, d) (e, f) =
      header_set_other name "x-authenticated-user" "true" _ f e
      ∙ roles_other name claims.roles _ c d
      ∙ user_id_other name (user_id_of claims) h a b

  inject-IsTrusted : (h : Headers) → IsTrusted claims (inject claims (sanitize_headers h))
  unfolding inject
  inject-IsTrusted h =
      let clean = sanitize_headers h in
      let with_id = set_user_id (user_id_of claims) clean in
      let with_roles = set_roles claims.roles with_id in
      let id_same : header "x-user-id" (inject claims clean) ≡ header "x-user-id" with_id =
        header_set_other "x-user-id" "x-authenticated-user" "true" with_roles refl refl
        ∙ roles_other "x-user-id" claims.roles with_id refl refl in
      let roles_same : header "x-user-roles" (inject claims clean)
          ≡ header "x-user-roles" with_roles =
        header_set_other "x-user-roles" "x-authenticated-user" "true" with_roles refl refl in
      let roles_clean : is_truthy (header "x-user-roles" with_id) ≡ false =
        ap is_truthy (user_id_other "x-user-roles" (user_id_of claims) clean refl refl)
        ∙ sanitize_removes "x-user-roles" h refl in
      (
        header_set_same "x-authenticated-user" "true" with_roles,
        rw id_same (user_id_falsy (user_id_of claims) clean (sanitize_removes "x-user-id" h refl)),
        rw roles_same (roles_set claims.roles with_id roles_clean),
        ap is_truthy (inject_other "x-user-role" clean (refl, refl) (refl, refl) (refl, refl))
            ∙ sanitize_removes "x-user-role" h refl,
        ap is_truthy (inject_other "x-user-email" clean (refl, refl) (refl, refl) (refl, refl))
            ∙ sanitize_removes "x-user-email" h refl,
        ap is_truthy (inject_other "x-forwarded-user" clean (refl, refl) (refl, refl) (refl, refl))
            ∙ sanitize_removes "x-forwarded-user" h refl,
      )

admit-next :
    (v : Verified) (h h' : Headers)
    → admit v h ≡ next h'
    → (claims : GatewayClaims) × (v ≡ decoded claims) × (inject claims h ≡ h')
unfolding admit
admit-next (decoded claims) h h' e = (claims, refl, cc)
admit-next token_expired_error h h' e = cc
admit-next json_web_token_error h h' e = cc
admit-next other_error h h' e = cc

module _ (verify : String → Verified) where
  check_parts-next :
      (parts : List String) (h h' : Headers)
      → check_parts verify parts h ≡ next h'
      → (token : String) × (parts ≡ "Bearer" ∷ token ∷ [])
        × (claims : GatewayClaims) × (verify token ≡ decoded claims)
        × (inject claims h ≡ h')
  unfolding check_parts
  check_parts-next [] h h' e = cc
  check_parts-next (scheme ∷ []) h h' e = cc
  check_parts-next (scheme ∷ token ∷ []) h h' e = elim (Bool-cases (scheme === "Bearer")) [
    | inl bearer ↦
        let (claims, verified, same) = admit-next (verify token) h h' (rw bearer at e) in
        (
          token,
          ap (λ x. x ∷ token ∷ []) ((===_iff scheme "Bearer").0 bearer),
          claims,
          verified,
          same,
        )
    | inr other ↦ let refused = rw other at e in cc
  ]
  check_parts-next (a ∷ b ∷ c ∷ parts) h h' e = cc

  check_header-next :
      (value : Option String) (h h' : Headers)
      → check_header verify value h ≡ next h'
      → (auth : String) × (value ≡ some auth) × (check_parts verify (split_spaces auth) h ≡ next h')
  unfolding check_header
  check_header-next none h h' e = cc
  check_header-next (some auth) h h' e = elim (Bool-cases (is_truthy (some auth))) [
    | inl real ↦ (auth, refl, rw real at e)
    | inr empty ↦ let refused = rw empty at e in cc
  ]

  -- A request that passes the removal of identity headers and then the authentication has an
  -- authorization header of two parts, `Bearer` and a token that verifies; and of the identity
  -- headers with a value, its user and its roles are those of the token's claims, it is marked as
  -- authenticated, and there is no other one, whatever headers the client sent.
  pub authenticate_trusts :
      (h h' : Headers)
      → authenticate verify (sanitize_headers h) ≡ next h'
      → (auth : String) × (header "authorization" (sanitize_headers h) ≡ some auth)
        × (token : String) × (split_spaces auth ≡ "Bearer" ∷ token ∷ [])
        × (claims : GatewayClaims) × (verify token ≡ decoded claims)
        × IsTrusted claims h'
  unfolding authenticate
  authenticate_trusts h h' e =
      let (auth, given, passed) = check_header-next _ (sanitize_headers h) h' e in
      let (token, parts, claims, verified, same) =
        check_parts-next _ (sanitize_headers h) h' passed in
      (
        auth,
        given,
        token,
        parts,
        claims,
        verified,
        subst (IsTrusted claims) same (inject-IsTrusted claims h),
      )
