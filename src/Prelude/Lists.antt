-- ===== src/Prelude/Lists.antt =====
-- The array methods that the source uses, as functions on lists, and the sets of texts.
use Prim.Native.Nat.{ℕ, suc}
use Prim.Native.String.{String}
use mathlib.Core.Logic.{◌⊎◌, inr, inl, inr}
use mathlib.Core.Bool.{Bool, true, false, ◌&&◌, ◌||◌}
use mathlib.Core.Option.{Option, none, some}
use mathlib.Core.List.{List, [], ◌∷◌, ◌++◌}
use mathlib.Core.Path.{◌≡◌, refl}
use native.Mathlib.Omega.{arith}
use bankos.Prelude.Tests.{Bool-cases, ===_iff, ===-refl, ◌===◌, if◌then◌else◌}

module _ {ℓ} {A : Type ℓ} where
  abbrev pub length : List A → ℕ
  length [] = 0
  length (x ∷ xs) = suc (length xs)

  -- `Array.some`.
  abbrev pub any : (A → Bool) → List A → Bool
  any p [] = false
  any p (x ∷ xs) = p x || any p xs

  -- `Array.every`.
  abbrev pub all : (A → Bool) → List A → Bool
  all p [] = true
  all p (x ∷ xs) = p x && all p xs

  -- `Array.find`.
  abbrev pub first : (A → Bool) → List A → Option A
  first p [] = none
  first p (x ∷ xs) = if p x then some x else first p xs

  -- `Array.filter`.
  abbrev pub keep : (A → Bool) → List A → List A
  keep p [] = []
  keep p (x ∷ xs) = if p x then x ∷ keep p xs else keep p xs

-- Membership, as a family that can be matched.
pub data Elem {ℓ} {A : Type ℓ} (a : A) : List A → Type ℓ where
  here : {xs : List A} → Elem a (a ∷ xs)
  there : {x : A} {xs : List A} → Elem a xs → Elem a (x ∷ xs)

pub any_sound {ℓ} :
    {A : Type ℓ} (p : A → Bool) (xs : List A) → any p xs ≡ true → (x : A) × Elem x xs × (p x ≡ true)
any_sound p [] h = cc
any_sound p (x ∷ xs) h = elim (Bool-cases (p x)) [
  | inl holds ↦ (x, here, holds)
  | inr fails ↦ let (y, m, holds) = any_sound p xs (ground arith) in (y, there m, holds)
]

pub any_complete {ℓ} :
    {A : Type ℓ} (p : A → Bool) (x : A) (xs : List A) → Elem x xs → p x ≡ true → any p xs ≡ true
any_complete p x [] m h = elim m [ ]
any_complete p x (_ ∷ xs) here h = ground arith
any_complete p x (y ∷ xs) (there m) h = ground (arith, any_complete p x xs m h)

pub Elem-cons {ℓ} : {A : Type ℓ} {a x : A} {xs : List A} → Elem a (x ∷ xs) → (a ≡ x) ⊎ Elem a xs
Elem-cons here = inl refl
Elem-cons (there m) = inr m

module _ {ℓ κ} {A : Type ℓ} (P : A → Type κ) where
  abbrev pub All : List A → Type κ
  All [] = Unit
  All (x ∷ xs) = P x × All xs

-- `Array.includes` on texts.
abbrev pub includes : List String → String → Bool
includes [] a = false
includes (x ∷ xs) a = x === a || includes xs a

-- `Set.add`: a set iterates in the order of insertion.
abbrev pub set_add : String → List String → List String
set_add a xs = if includes xs a then xs else xs ++ a ∷ []

pub includes-append :
    (xs : List String) (a b : String) → includes (xs ++ a ∷ []) b ≡ (includes xs b || (a === b))
includes-append [] a b = ground arith
includes-append (x ∷ xs) a b = ground (arith, includes-append xs a b)

pub includes_self : (xs : List String) (a : String) → includes (xs ++ a ∷ []) a ≡ true
includes_self xs a = ground (arith, includes-append xs a a, ===-refl a)

pub includes_weaken :
    (xs : List String) (a b : String) → includes xs b ≡ true → includes (xs ++ a ∷ []) b ≡ true
includes_weaken xs a b h = ground (arith, includes-append xs a b)

pub set_add_self : (xs : List String) (a : String) → includes (set_add a xs) a ≡ true
set_add_self xs a = elim (Bool-cases (includes xs a)) [
  | inl old ↦ rw old old
  | inr new ↦ rw new (includes_self xs a)
]

pub set_add_weaken :
    (xs : List String) (a b : String) → includes xs b ≡ true → includes (set_add a xs) b ≡ true
set_add_weaken xs a b h = ground (arith, includes-append xs a b)

pub includes-Elem : (xs : List String) (a : String) → includes xs a ≡ true → Elem a xs
includes-Elem [] a h = cc
includes-Elem (x ∷ xs) a h = elim (Bool-cases (x === a)) [
  | inl same ↦ rw ((===_iff x a).0 same) here
  | inr other ↦ there (includes-Elem xs a (ground arith))
]

pub Elem-includes : (xs : List String) (a : String) → Elem a xs → includes xs a ≡ true
Elem-includes [] a m = elim m [ ]
Elem-includes (_ ∷ xs) a here = rw (===-refl a) refl
Elem-includes (x ∷ xs) a (there m) = ground (arith, Elem-includes xs a m)
