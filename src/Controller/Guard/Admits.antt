-- ===== src/Controller/Guard/Admits.antt =====
-- Which requests the guards of the routes let through.
use bankos.Prelude.{
  String, ◌≡◌, refl, Bool, true, false, Option, none, some, List, Result, ok, err, Bool-cases, inl,
  inr,
}
use bankos.Crypto.Tokens.{verify_access_token}
use bankos.Domain.Event.{Event}
use bankos.Engine.Policy as Policy
use bankos.Http.{is_truthy}
use bankos.Runtime.Action.{Action}
use bankos.Runtime.Packages.{Claims}
use bankos.Runtime.World.{World}
use bankos.Service.Setup.{Setup}
use bankos.Controller.Guard.{
  proceed, header_token, or_empty, after_denial, decide, guard_token, insufficient,
  require_permission,
}

module _ (s : Setup) (dispatch : List Event → Action (Unit {0})) where
  after_denial-denies :
      (outcome : Result (Unit {0}) × World) (claims : Claims) (w' : World)
      → after_denial s dispatch outcome ≡ (proceed claims, w')
      → true ≡ false
  unfolding after_denial
  after_denial-denies (ok _, w) claims w' e = cc
  after_denial-denies (err _, w) claims w' e = cc

  decide-proceeds :
      (is_granted : Claims → Bool) (denial : Claims → Event) (outcome : Result Claims × World)
      (claims : Claims) (w' : World)
      → decide s dispatch is_granted denial outcome ≡ (proceed claims, w')
      → (outcome ≡ (ok claims, w')) × (is_granted claims ≡ true)
  unfolding decide
  decide-proceeds is_granted denial (err _, w) claims w' e = cc
  decide-proceeds is_granted denial (ok found, w) claims w' e =
      elim (Bool-cases (is_granted found)) [
        | inl granted ↦
            let passed = rw granted at e in
            let same : found ≡ claims = cc in
            let after : w ≡ w' = cc in (rw (same, after) refl, rw (← same) granted)
        | inr denied ↦
            let answered = rw denied at e in
            let absurd = after_denial-denies _ claims w' answered in cc
      ]

  guard_token-proceeds :
      (is_granted : Claims → Bool) (denial : Claims → Event) (token : Option String) (w w' : World)
      (claims : Claims)
      → guard_token s dispatch is_granted denial token w ≡ (proceed claims, w')
      → (t : String) × (token ≡ some t)
        × (verify_access_token s.env s.config s.keys t w ≡ (ok claims, w'))
        × (is_granted claims ≡ true)
  unfolding guard_token
  guard_token-proceeds is_granted denial none w w' claims e = cc
  guard_token-proceeds is_granted denial (some t) w w' claims e =
      elim (Bool-cases (is_truthy (some t))) [
        | inl real ↦
            let (verified, granted) =
              decide-proceeds is_granted denial _ claims w' (rw real at e) in
            (t, refl, verified, granted)
        | inr empty ↦ let denied = rw empty at e in cc
      ]

  -- A request goes on past `requirePermission` only if its authorization header has a token that
  -- verifies, and the permissions in the claims of that token grant what is required; its claims are
  -- what the request goes on with, and nothing but the verification touched the state.
  pub require_permission_admits :
      (required : String) (authorization : Option String) (w w' : World) (claims : Claims)
      → require_permission s dispatch required authorization w ≡ (proceed claims, w')
      → (t : String) × (header_token authorization ≡ some t)
        × (verify_access_token s.env s.config s.keys t w ≡ (ok claims, w'))
        × (Policy.require_permission (or_empty claims.permissions) required ≡ true)
  unfolding require_permission
  require_permission_admits required authorization w w' claims e =
      guard_token-proceeds _ (insufficient s dispatch) (header_token authorization) w w' claims e
