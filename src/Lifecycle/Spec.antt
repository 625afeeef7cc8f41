-- ===== src/Lifecycle/Spec.antt =====
-- The life of the sessions, as a relation: `Opened` and `Revoked` are its steps.
use bankos.Prelude.{
  ◌≡◌, refl, sym, subst, ◌∙◌, ◌⊎◌, inl, inr, Bool, true, false, Option, some, List, [], ◌∷◌, ◌++◌,
  any, first, ◌===◌, Bool-cases,
}
use bankos.Database.Delegate.{update_where}
use bankos.Database.Rows.{SessionRow}
use bankos.Repository.Laws.{first-append, first-update_where}

-- The row of a session after it was revoked.
abbrev pub revoked_row : SessionRow → SessionRow
revoked_row r = record r { is_revoked = true }

-- One step in the life of the sessions.
pub data SessionStep : List SessionRow → List SessionRow → Type 0 where
  opened :
      {t : List SessionRow} (row : SessionRow)
      → any (λ r. r.id === row.id) t ≡ false
      → SessionStep t (t ++ row ∷ [])
  revoked :
      {t : List SessionRow} (chosen : SessionRow → Bool)
      → SessionStep t (update_where chosen revoked_row t)

-- Any number of steps.
pub data Evolves (t : List SessionRow) : List SessionRow → Type 0 where
  unchanged : Evolves t t
  evolved : {u v : List SessionRow} → Evolves t u → SessionStep u v → Evolves t v

pub Evolves-trans : {t u v : List SessionRow} → Evolves t u → Evolves u v → Evolves t v
Evolves-trans e unchanged = e
Evolves-trans e (evolved f step) = evolved (Evolves-trans e f) step

pub Evolves-path : {t u : List SessionRow} → u ≡ t → Evolves t u
Evolves-path {t} same = subst (λ u. Evolves t u) (sym same) unchanged

module _ (names : SessionRow → Bool)
    (blind : (r : SessionRow) → names (revoked_row r) ≡ names r) where
  -- A row that is found is found afterwards too, as it was or revoked.
  abbrev Follows : Option SessionRow → SessionRow → Type 0
  Follows found r = (found ≡ some r) ⊎ (found ≡ some (revoked_row r))

  step-first :
      {t u : List SessionRow} (r : SessionRow)
      → SessionStep t u
      → first names t ≡ some r
      → Follows (first names u) r
  step-first r (opened {t} row new) found = inl (first-append names t r row found)
  step-first r (revoked {t} chosen) found =
      let after = first-update_where names chosen revoked_row t blind in
      elim (Bool-cases (chosen r)) [
        | inl hit ↦ inr (after ∙ simp (found, hit) refl)
        | inr missed ↦ inl (after ∙ simp (found, missed) refl)
      ]

  -- However the sessions evolve, the row that a test finds stays the one it finds.
  pub Evolves-first :
      {t u : List SessionRow} (r : SessionRow)
      → Evolves t u
      → first names t ≡ some r
      → Follows (first names u) r
  Evolves-first r unchanged found = inl found
  Evolves-first r (evolved e step) found = elim (Evolves-first r e found) [
    | inl same ↦ step-first r step same
    | inr gone ↦ elim (step-first (revoked_row r) step gone) [
      | inl kept ↦ inr kept
      | inr again ↦ inr again
    ]
  ]

  pub Evolves-first-revoked :
      {t u : List SessionRow} (r : SessionRow)
      → Evolves t u
      → first names t ≡ some (revoked_row r)
      → first names u ≡ some (revoked_row r)
  Evolves-first-revoked r e found = elim (Evolves-first (revoked_row r) e found) [
    | inl kept ↦ kept
    | inr again ↦ again
  ]
