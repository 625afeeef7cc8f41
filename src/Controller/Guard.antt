-- ===== src/Controller/Guard.antt =====
-- middleware/requireAuth.ts. The dispatcher is a parameter, since each router makes its own, and so is
-- `JSON.stringify`.
pub mod Admits
use bankos.Prelude.{
  ℕ, String, Bool, true, false, Option, none, some, List, [], ◌∷◌, ◌===◌, if◌then◌else◌, Result, ok,
  err,
}
use bankos.Crypto.Tokens.{verify_access_token}
use bankos.Domain.Event.{Event, new_event, authorization_denied}
use bankos.Engine.Policy as Policy
use bankos.Http.{is_truthy}
use bankos.Runtime.Action.{Action}
use bankos.Runtime.Packages.{Claims}
use bankos.Runtime.World.{World}
use bankos.Service.Setup.{Setup}
use bankos.Text.{split_spaces}

-- The request goes on with the claims of its token, or is answered with a status.
pub data Guarded : Type 0 where
  proceed : Claims → Guarded
  deny : ℕ → Guarded

-- `parts[1]`
unfoldable pub second : List String → Option String
second [] = none
second (_ ∷ []) = none
second (_ ∷ part ∷ _) = some part

-- `req.headers.authorization?.split(' ')[1]`
unfoldable pub header_token : Option String → Option String
unfolding second
header_token none = none
header_token (some authorization) = second (split_spaces authorization)

-- `claim || []`
unfoldable pub or_empty : Option (List String) → List String
or_empty none = []
or_empty (some names) = names

-- The user that a denial names; an undefined one is written as the empty text.
unfoldable pub subject_of : Claims → String
subject_of claims = elim claims.sub [ none ↦ "" | some sub ↦ sub ]

module _ (s : Setup) (dispatch : List Event → Action (Unit {0})) where
  -- What a dispatch that throws is answered with is that of the `catch`.
  unfoldable pub after_denial : Result (Unit {0}) × World → Guarded × World
  after_denial (ok _, w) = (deny 403, w)
  after_denial (err _, w) = (deny 401, w)

  unfoldable pub decide :
      (Claims → Bool) → (Claims → Event) → Result Claims × World → Guarded × World
  decide is_granted denial (err _, w) = (deny 401, w)
  decide is_granted denial (ok claims, w) =
      if is_granted claims
      then (proceed claims, w)
      else after_denial (dispatch (denial claims ∷ []) w)

  unfoldable pub guard_token :
      (Claims → Bool) → (Claims → Event) → Option String → World → Guarded × World
  guard_token is_granted denial none w = (deny 401, w)
  guard_token is_granted denial (some token) w =
      if is_truthy (some token)
      then decide is_granted denial (verify_access_token s.env s.config s.keys token w)
      else (deny 401, w)

  unfoldable pub insufficient : Claims → Event
  insufficient claims =
      new_event (authorization_denied (subject_of claims) "Insufficient role or permissions" none)

  -- `req.body.token || …`
  unfoldable pub body_or_header_token : Option String → Option String → Option String
  body_or_header_token body_token authorization =
      if is_truthy body_token then body_token else header_token authorization

  unfoldable pub require_role :
      String → (body_token authorization : Option String) → World → Guarded × World
  require_role required_role body_token authorization =
      guard_token (λ claims. Policy.require_role (or_empty claims.roles) required_role) insufficient
        (body_or_header_token body_token authorization)

  unfoldable pub require_permission :
      String → (authorization : Option String) → World → Guarded × World
  require_permission required authorization =
      guard_token (λ claims. Policy.require_permission (or_empty claims.permissions) required)
        insufficient (header_token authorization)

  module _
      (stringify : (key : String) (required : List String) (actual : Option (List String)) → String)
      (path : String) where
    unfoldable pub lacking : String → List String → Claims → Event
    lacking key required claims = new_event (
        authorization_denied (subject_of claims) path
          (some (stringify key required claims.permissions)))

    unfoldable pub require_any_permission :
        List String → (authorization : Option String) → World → Guarded × World
    require_any_permission required authorization =
        guard_token (λ claims. Policy.require_any (or_empty claims.permissions) required)
          (lacking "requiredAny" required) (header_token authorization)

    unfoldable pub require_all_permissions :
        List String → (authorization : Option String) → World → Guarded × World
    require_all_permissions required authorization =
        guard_token (λ claims. Policy.require_all (or_empty claims.permissions) required)
          (lacking "requiredAll" required) (header_token authorization)
