-- ===== src/Engine/Evaluator/Laws.antt =====
-- When a permission is granted, stated without string operations.
use Prim.Native.String
use bankos.Prelude.{
  String, ◌≡◌, refl, ◌⊎◌, inl, inr, ◌↔◌, true, List, arith, Elem, any_sound, any_complete, ◌===◌,
  ===_iff, ===-refl, Bool-cases,
}
use bankos.Text.{ends_with, drop_end, starts_with}
use bankos.Text.Laws.{starts_with_iff, ends_with_iff, drop_end-append}
use bankos.Engine.Evaluator.{match_permission, has_permission}

-- `granted` is `p.*` and `required` is `p.r` for some `p` and `r`.
pub record Covers (granted required : String) : Type 0 where
  pub prefix : String
  pub rest : String
  pub wildcard : granted ≡ String.◌++◌ prefix ".*"
  pub below : required ≡ String.◌++◌ (String.◌++◌ prefix ".") rest

abbrev pub Grants : String → String → Type 0
Grants granted required = (granted ≡ required) ⊎ ((granted ≡ "*") ⊎ Covers granted required)

Covers-drop_end : (p granted : String) → granted ≡ String.◌++◌ p ".*" → drop_end 2 granted ≡ p
Covers-drop_end p granted e = rw e (drop_end-append p ".*")

wildcard-Covers :
    (granted required : String)
    → ends_with granted ".*" ≡ true
    → starts_with required (String.◌++◌ (drop_end 2 granted) ".") ≡ true
    → Covers granted required
wildcard-Covers granted required dotted starts =
    let (p, e) = (ends_with_iff granted ".*").0 dotted in
    let (r, below) = (starts_with_iff required _).0 starts in
    record { prefix = p; rest = r; wildcard = e; below = rw (← Covers-drop_end p granted e) below }

Covers-wildcard :
    (granted required : String)
    → Covers granted required
    → (ends_with granted ".*" ≡ true)
      × (starts_with required (String.◌++◌ (drop_end 2 granted) ".") ≡ true)
Covers-wildcard granted required c = (
  (ends_with_iff granted ".*").1 (c.prefix, c.wildcard),
  rw (Covers-drop_end c.prefix granted c.wildcard)
      ((starts_with_iff required _).1 (c.rest, c.below)),
)

match_permission_sound :
    (granted required : String) → match_permission granted required ≡ true → Grants granted required
unfolding match_permission
match_permission_sound granted required h = elim (Bool-cases (granted === required)) [
  | inl same ↦ inl ((===_iff _ _).0 same)
  | inr other ↦ elim (Bool-cases (granted === "*")) [
    | inl star ↦ inr (inl ((===_iff _ _).0 star))
    | inr plain ↦ inr (inr (wildcard-Covers granted required (ground arith) (ground arith)))
  ]
]

match_permission_complete :
    (granted required : String) → Grants granted required → match_permission granted required ≡ true
unfolding match_permission
match_permission_complete granted required (inl e) = rw (e, ===-refl required) refl
match_permission_complete granted required (inr (inl e)) = ground (arith, ===_iff granted "*")
match_permission_complete granted required (inr (inr c)) =
    let (dotted, starts) = Covers-wildcard granted required c in ground arith

-- A granted permission matches a required one exactly when it is equal to it, is `*`, or is `p.*`
-- where the required one begins with `p.`.
pub match_permission_iff :
    (granted required : String)
    → (match_permission granted required ≡ true) ↔ Grants granted required
match_permission_iff granted required =
    (match_permission_sound granted required, match_permission_complete granted required)

-- A required permission is satisfied exactly when one of the granted ones grants it.
pub has_permission_iff :
    (granted_permissions : List String) (required : String)
    → (has_permission granted_permissions required ≡ true)
      ↔ ((granted : String) × Elem granted granted_permissions × Grants granted required)
unfolding has_permission
has_permission_iff gs required = (
  λ h. let (g, m, e) = any_sound _ gs h in (g, m, match_permission_sound g required e),
  λ (g, m, grants). any_complete _ g gs m (match_permission_complete g required grants),
)
