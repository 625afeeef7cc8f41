-- ===== src/Controller/App/Reaching.antt =====
-- Which requests reach a route of the identity service.
use bankos.Prelude.{
  ℕ, String, ◌≡◌, refl, sym, subst, Bool, true, false, Option, none, some, List, includes,
  includes-Elem,
}
use bankos.Controller.App.{
  IdentityRequest, IdentityPlatform, Route, Received, refused, preflight, reached, refuse_error,
  pass_if, unless_error, receive, cors_error,
}
use bankos.Controller.Filters.{RequestError, strip_headers, headers_to_strip}
use bankos.Http.{Headers, header}
use bankos.Controller.App.Accepted.{
  strip_removes, negated, FromOrigin, cors_allows-FromOrigin, HasContent, allowed-HasContent, HasId,
  correlation_id-HasId,
}

module _ (route : Route) (id : String) (h : Headers) where
  pass_if-reached :
      (b : Bool) (refusal rest : Received)
      → ((refusal ≡ reached route id h) → (b ≡ true))
      → pass_if b refusal rest ≡ reached route id h
      → (b ≡ true) × (rest ≡ reached route id h)
  unfolding pass_if
  pass_if-reached true refusal rest never e = (refl, e)
  pass_if-reached false refusal rest never e = let absurd = never e in cc

  unless_error-reached :
      (o : Option RequestError) (rest : Received)
      → unless_error o rest ≡ reached route id h
      → rest ≡ reached route id h
  unfolding unless_error refuse_error
  unless_error-reached none rest e = e
  unless_error-reached (some error) rest e = cc

  refused-differs :
      (status : ℕ) (message : String) (b : Bool)
      → refused status message ≡ reached route id h
      → b ≡ true
  refused-differs status message b e = cc

  preflight-differs : (b : Bool) → preflight ≡ reached route id h → b ≡ true
  preflight-differs b e = cc

  error-differs :
      (error : RequestError) (b : Bool) → refuse_error error ≡ reached route id h → b ≡ true
  unfolding refuse_error
  error-differs error b e = cc

  reached_same :
      (route' : Route) (id' : String) (h' : Headers)
      → reached route' id' h' ≡ reached route id h
      → (route ≡ route') × (id ≡ id') × (h' ≡ h)
  reached_same route' id' h' e = (cc, cc, cc)

  error_free :
      (o : Option RequestError) (rest : Received)
      → unless_error o rest ≡ reached route id h
      → o ≡ none
  unfolding unless_error refuse_error
  error_free none rest e = refl
  error_free (some error) rest e = cc

  -- A request that reaches a route is no preflight and could be parsed. It has no origin, an empty
  -- one or one of the list, unless the list has `*`. Its method is GET, DELETE or OPTIONS, or it is POST,
  -- PUT or PATCH and the content type, trimmed and up to the first semicolon, is one of three. The
  -- correlation id is the one that the client sent, where this is a UUID, or a fresh one. And the six
  -- headers by which the gateway tells who the user is are not left in it, whatever the client or
  -- the gateway put there.
  pub receive_reaches :
      (platform : IdentityPlatform) (cors_allowed_origins : List String) (request : IdentityRequest)
      → receive platform cors_allowed_origins request ≡ reached route id h
      → (platform.is_preflight request ≡ false)
        × (platform.parse_error request ≡ none)
        × FromOrigin cors_allowed_origins (header "origin" request.headers)
        × HasContent request.method (header "content-type" request.headers)
        × HasId platform (header "x-correlation-id" request.headers) id
        × (header "x-user-id" h ≡ none)
        × (header "x-user-role" h ≡ none)
        × (header "x-user-roles" h ≡ none)
        × (header "x-authenticated-user" h ≡ none)
        × (header "x-forwarded-user" h ≡ none)
        × (header "x-internal-user" h ≡ none)
  unfolding receive strip_headers
  receive_reaches platform cors_allowed_origins request e =
      let (origin, e1) = pass_if-reached _ _ _ (error-differs cors_error _) e in
      let (asked, e2) = pass_if-reached _ _ _ (preflight-differs _) e1 in
      let (method, e3) = pass_if-reached _ _ _ (refused-differs 405 "Method Not Allowed" _) e2 in
      let (typed, e4) = pass_if-reached _ _ _ (refused-differs 415 "Unsupported Media Type" _) e3 in
      let e5 = unless_error-reached (platform.parse_error request) _ e4 in
      let (route_is, id_is, headers_are) = reached_same _ _ _ e5 in
      let gone : (name : String) → includes headers_to_strip name ≡ true → header name h ≡ none =
        λ name listed.
          subst (λ x. header name x ≡ none) headers_are
            (strip_removes headers_to_strip name request.headers
              (includes-Elem headers_to_strip name listed)) in
      (
        negated _ asked,
        error_free (platform.parse_error request) _ e4,
        cors_allows-FromOrigin cors_allowed_origins _ origin,
        allowed-HasContent request.method _ method typed,
        subst (HasId platform _) (sym id_is)
            (correlation_id-HasId platform (header "x-correlation-id" request.headers)),
        gone "x-user-id" refl,
        gone "x-user-role" refl,
        gone "x-user-roles" refl,
        gone "x-authenticated-user" refl,
        gone "x-forwarded-user" refl,
        gone "x-internal-user" refl,
      )
