-- ===== src/Controller/App/Accepted.antt =====
-- What a request is like that the tests of middlewares/security.ts and correlationId.ts let pass.
use bankos.Prelude.{
  String, ◌≡◌, refl, sym, subst, Bool, true, false, Option, none, some, List, [], ◌∷◌, Elem, here,
  there, ◌===◌, ===_iff, includes, includes-Elem, not, ap, ◌⊎◌, inl, inr, Bool-cases, arith, ◌&&◌,
}
use bankos.Controller.App.{IdentityPlatform}
use bankos.Controller.Filters.{
  cors_allows, method_allowed, content_type_allowed, correlation_id, content_listed, strip_all,
}
use bankos.Http.{Headers, header, delete_header, header_delete_same, header_delete_other, is_truthy}
use bankos.Text.{trim, until_semicolon}

strip_keeps_absent :
    (names : List String) (name : String) (h : Headers)
    → header name h ≡ none
    → header name (strip_all names h) ≡ none
unfolding strip_all
strip_keeps_absent [] name h absent = absent
strip_keeps_absent (key ∷ names) name h absent =
    strip_keeps_absent names name (delete_header key h) (deleted (name === key) refl)
  where
    deleted : (b : Bool) → (name === key) ≡ b → header name (delete_header key h) ≡ none
    deleted true same =
        subst (λ k. header name (delete_header k h) ≡ none) ((===_iff name key).0 same)
          (header_delete_same name h)
    deleted false other = subst (λ o. o ≡ none) (sym (header_delete_other name key h other)) absent

pub strip_removes :
    (names : List String) (name : String) (h : Headers)
    → Elem name names
    → header name (strip_all names h) ≡ none
unfolding strip_all
strip_removes [] name h m = elim m [ ]
strip_removes (_ ∷ names) name h here =
    strip_keeps_absent names name (delete_header name h) (header_delete_same name h)
strip_removes (key ∷ names) name h (there m) = strip_removes names name (delete_header key h) m

pub negated : (b : Bool) → not b ≡ true → b ≡ false
negated true e = cc
negated false e = refl

-- No origin, an empty one, one of the list, or any where the list has `*`.
abbrev pub FromOrigin : List String → Option String → Type 0
FromOrigin origins o =
    (o ≡ none)
    ⊎ (o ≡ some "")
    ⊎ ((origin : String) × (o ≡ some origin) × Elem origin origins)
    ⊎ Elem "*" origins

pub cors_allows-FromOrigin :
    (origins : List String) (o : Option String)
    → cors_allows origins o ≡ true
    → FromOrigin origins o
unfolding cors_allows is_truthy
cors_allows-FromOrigin origins none allowed = inl refl
cors_allows-FromOrigin origins (some origin) allowed = elim (Bool-cases (origin === "")) [
  | inl empty ↦ inr (inl (ap some ((===_iff origin "").0 empty)))
  | inr named ↦ elim (Bool-cases (includes origins origin)) [
    | inl listed ↦ inr (inr (inl (origin, refl, includes-Elem origins origin listed)))
    | inr other ↦ inr (inr (inr (includes-Elem origins "*" (ground arith))))
  ]
]

-- A method without a body, or one with a body of a listed type.
abbrev pub HasContent : String → Option String → Type 0
HasContent method content_type =
    (Elem method ("GET" ∷ "DELETE" ∷ "OPTIONS" ∷ []))
    ⊎ (Elem method ("POST" ∷ "PUT" ∷ "PATCH" ∷ [])
        × (text : String) × (content_type ≡ some text)
        × Elem (trim (until_semicolon text))
            ("application/json" ∷ "application/x-www-form-urlencoded" ∷ "multipart/form-data" ∷ []))

content_listed-Elem :
    (o : Option String)
    → content_listed o ≡ true
    → (text : String) × (o ≡ some text)
      × Elem
          (trim (until_semicolon text))
          ("application/json" ∷ "application/x-www-form-urlencoded" ∷ "multipart/form-data" ∷ [])
unfolding content_listed
content_listed-Elem none listed = cc
content_listed-Elem (some text) listed = (text, refl, includes-Elem _ _ listed)

without_body :
    (method : String)
    → method_allowed method ≡ true
    → includes ("POST" ∷ "PUT" ∷ "PATCH" ∷ []) method ≡ false
    → includes ("GET" ∷ "DELETE" ∷ "OPTIONS" ∷ []) method ≡ true
unfolding method_allowed
without_body method allowed other = ground arith

pub allowed-HasContent :
    (method : String) (content_type : Option String)
    → method_allowed method ≡ true
    → content_type_allowed method content_type ≡ true
    → HasContent method content_type
unfolding content_type_allowed
allowed-HasContent method content_type allowed typed =
    elim (Bool-cases (includes ("POST" ∷ "PUT" ∷ "PATCH" ∷ []) method)) [
      | inl bodied ↦
          let (text, given, listed) = content_listed-Elem content_type (ground arith) in
          inr (includes-Elem _ method bodied, text, given, listed)
      | inr other ↦ inl (includes-Elem _ method (without_body method allowed other))
    ]

-- The id of the client where this is a UUID, or the fresh one.
abbrev pub HasId : IdentityPlatform → Option String → String → Type 0
HasId platform existing id =
    ((existing ≡ some id) × (platform.is_uuid id ≡ true)) ⊎ (id ≡ platform.uuid)

pub correlation_id-HasId :
    (platform : IdentityPlatform) (existing : Option String)
    → HasId platform existing (correlation_id platform.is_uuid platform.uuid existing)
unfolding correlation_id
correlation_id-HasId platform none = inr refl
correlation_id-HasId platform (some existing) =
    elim (Bool-cases (is_truthy (some existing) && platform.is_uuid existing)) [
      | inl kept ↦ rw kept (inl (refl, ground arith))
      | inr fresh ↦ rw fresh (inr refl)
    ]
