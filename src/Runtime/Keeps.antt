-- ===== src/Runtime/Keeps.antt =====
-- Actions that leave a part of the state as it was, whether they return or throw.
use bankos.Prelude.{
  ◌≡◌, refl, sym, subst, ◌∙◌, Option, none, some, List, [], ◌∷◌, Thrown, Result, ok, err,
}
use bankos.Runtime.World.{World}
use bankos.Runtime.Action.{Action, continue, ◌>>=◌, for_each, or_throw, stored}

module _ {T : Type 0} (part : World → T) where
  abbrev pub Keeps : {A : Type 0} → Action A → Type 0
  Keeps m = (w : World) → part (m w).1 ≡ part w

  pub continue-Keeps :
      {A B : Type 0} (r : Result A) (k : A → Action B)
      → ((a : A) → Keeps (k a))
      → Keeps (λ w. continue r k w)
  continue-Keeps (ok a) k keeps w = keeps a w
  continue-Keeps (err e) k keeps w = refl

  pub bind-Keeps :
      {A B : Type 0} (m : Action A) (k : A → Action B)
      → Keeps m
      → ((a : A) → Keeps (k a))
      → Keeps (m >>= k)
  bind-Keeps m k first rest w = continue-Keeps (m w).0 k rest (m w).1 ∙ first w

  pub for_each-Keeps :
      {A : Type 0} (body : A → Action (Unit {0})) (xs : List A)
      → ((x : A) → Keeps (body x))
      → Keeps (for_each body xs)
  unfolding for_each
  for_each-Keeps body [] keeps w = refl
  for_each-Keeps body (x ∷ xs) keeps w =
      bind-Keeps (body x) (λ _. for_each body xs) (keeps x) (λ _. for_each-Keeps body xs keeps) w

  pub stored-Keeps :
      {S : Type 0} (t : Option S) (put : S → World) (e : Thrown) (w : World)
      → ((t : S) → part (put t) ≡ part w)
      → part (stored t put e w).1 ≡ part w
  stored-Keeps none put e w keeps = refl
  stored-Keeps (some t) put e w keeps = keeps t

  pub or_throw-Keeps : {A : Type 0} (o : Option A) (e : Thrown) → Keeps (or_throw o e)
  or_throw-Keeps none e w = refl
  or_throw-Keeps (some a) e w = refl

  continue-leads :
      {A B : Type 0} (t : T) (Q : T → Type 0) (r : Result A) (k : A → Action B)
      → ((a : A) (w : World) → part w ≡ t → Q (part (k a w).1))
      → Q t
      → (w : World) → part w ≡ t
      → Q (part (continue r k w).1)
  continue-leads t Q (ok a) k next q w same = next a w same
  continue-leads t Q (err e) k next q w same = subst Q (sym same) q

  -- What holds of the part `t` and after every continuation that starts there holds after the whole.
  pub bind-leads :
      {A B : Type 0} (t : T) (Q : T → Type 0) (m : Action A) (k : A → Action B)
      → Keeps m
      → ((a : A) (w : World) → part w ≡ t → Q (part (k a w).1))
      → Q t
      → (w : World) → part w ≡ t
      → Q (part ((m >>= k) w).1)
  bind-leads t Q m k keeps next q w same =
      continue-leads t Q (m w).0 k next q (m w).1 (keeps w ∙ same)
