-- ===== src/Gateway/Proxy/Carried.antt =====
-- The headers that a proxied request carries.
use bankos.Prelude.{
  String, ◌≡◌, refl, ap, ◌∙◌, sym, inl, inr, true, false, Option, none, some, ◌===◌, Bool-cases,
  ===_iff,
}
use bankos.Gateway.Auth.{GatewayClaims}
use bankos.Gateway.Auth.Trust.{IsTrusted}
use bankos.Gateway.Correlation.{is_uuid_v4, choose_id}
use bankos.Gateway.Proxy.{proxy_headers}
use bankos.Http.{
  Headers, header, delete_header, is_truthy, header_delete_other, header_set_same, header_set_other,
}

module _ (name : String) (correlation : String) (h : Headers) where
  -- A header that the proxy leaves as it is.
  kept_header :
      (name === "connection") ≡ false
      → (name === "keep-alive") ≡ false
      → header name (delete_header "keep-alive" (delete_header "connection" h)) ≡ header name h
  kept_header a b =
      header_delete_other name "keep-alive" (delete_header "connection" h) b
      ∙ header_delete_other name "connection" h a

  proxy_keeps :
      (name === "connection") ≡ false
      → (name === "keep-alive") ≡ false
      → (name === "x-correlation-id") ≡ false
      → ("x-correlation-id" === name) ≡ false
      → header name (proxy_headers correlation h) ≡ header name h
  unfolding proxy_headers
  proxy_keeps a b c d = elim (Bool-cases (is_truthy (some correlation))) [
    | inl real ↦ rw real (
        header_set_other name "x-correlation-id" correlation
          (delete_header "keep-alive" (delete_header "connection" h)) d c
        ∙ kept_header a b)
    | inr empty ↦ rw empty (kept_header a b)
  ]

pub proxy-IsTrusted :
    (claims : GatewayClaims) (correlation : String) (h : Headers)
    → IsTrusted claims h
    → IsTrusted claims (proxy_headers correlation h)
proxy-IsTrusted claims correlation h (marked, id, roles, role, email, forwarded) = (
  proxy_keeps "x-authenticated-user" correlation h refl refl refl refl ∙ marked,
  rw (proxy_keeps "x-user-id" correlation h refl refl refl refl) id,
  rw (proxy_keeps "x-user-roles" correlation h refl refl refl refl) roles,
  rw (proxy_keeps "x-user-role" correlation h refl refl refl refl) role,
  rw (proxy_keeps "x-user-email" correlation h refl refl refl refl) email,
  rw (proxy_keeps "x-forwarded-user" correlation h refl refl refl refl) forwarded,
)

pub uuid_truthy : (id : String) → is_uuid_v4 id ≡ true → is_truthy (some id) ≡ true
unfolding is_truthy is_uuid_v4
uuid_truthy id valid = elim (Bool-cases (id === "")) [
  | inl empty ↦
      let invalid : is_uuid_v4 "" ≡ true = ap is_uuid_v4 (sym ((===_iff id "").0 empty)) ∙ valid in
      cc
  | inr named ↦ rw named refl
]

pub choose-IsUuid :
    (generated : String) (given : Option String)
    → is_uuid_v4 generated ≡ true
    → is_uuid_v4 (choose_id generated given) ≡ true
unfolding choose_id
choose-IsUuid generated none valid = valid
choose-IsUuid generated (some id) valid = elim (Bool-cases (is_uuid_v4 id)) [
  | inl good ↦ rw (good, good) refl
  | inr bad ↦ rw bad valid
]

pub proxy_correlates :
    (correlation : String) (h : Headers)
    → is_truthy (some correlation) ≡ true
    → header "x-correlation-id" (proxy_headers correlation h) ≡ some correlation
unfolding proxy_headers
proxy_correlates correlation h real = rw real (
    header_set_same "x-correlation-id" correlation
      (delete_header "keep-alive" (delete_header "connection" h)))
