-- ===== src/Text/Laws.antt =====
-- What the string methods decide.
use Prim.Native.String
use Prim.Native.String.{String, count}
use text.Mathlib.TextEquality.{Char-path}
use text.Mathlib.TextLemmas.{nil-append, cons-append, length-append, length-cons}
use bankos.Prelude.{
  ℕ, ◌≤◌, ◌<◌, ◌≡◌, refl, sym, ap, ◌∙◌, ◌↔◌, true, inl, inr, arith, ◌===◌, ===_iff, ===-refl,
  Bool-cases,
}
use bankos.Text.{ends_with, drop_end, starts_with}

starts_with_sound : (s t : String) → starts_with s t ≡ true → (r : String) × (s ≡ String.◌++◌ t r)
unfolding starts_with
starts_with_sound s String.[] h = (s, sym (nil-append s))
starts_with_sound String.[] (String.◌∷◌ d t) h = cc
starts_with_sound (String.◌∷◌ c s) (String.◌∷◌ d t) h =
    let (r, e) = starts_with_sound s t (ground arith) in
    let same : c ≡ d = Char-path c d (ground arith) in
    (r, rw cons-append (rw same (ap (String.◌∷◌ d) e)))

starts_with-append : (t r : String) → starts_with (String.◌++◌ t r) t ≡ true
unfolding starts_with
starts_with-append String.[] r = refl
starts_with-append (String.◌∷◌ d t) r = rw cons-append (ground (arith, starts_with-append t r))

pub starts_with_iff :
    (s t : String) → (starts_with s t ≡ true) ↔ ((r : String) × (s ≡ String.◌++◌ t r))
starts_with_iff s t = (starts_with_sound s t, λ (r, e). rw e (starts_with-append t r))

ends_with_sound : (s t : String) → ends_with s t ≡ true → (p : String) × (s ≡ String.◌++◌ p t)
unfolding ends_with
ends_with_sound String.[] t h = ("", (===_iff _ _).0 h ∙ sym (nil-append t))
ends_with_sound (String.◌∷◌ c s) t h = elim (Bool-cases (String.◌∷◌ c s === t)) [
  | inl same ↦ ("", (===_iff _ _).0 same ∙ sym (nil-append t))
  | inr other ↦
      let (p, e) = ends_with_sound s t (ground arith) in
      (String.◌∷◌ c p, rw cons-append (ap (String.◌∷◌ c) e))
]

ends_with_refl : (t : String) → ends_with t t ≡ true
unfolding ends_with
ends_with_refl String.[] = refl
ends_with_refl (String.◌∷◌ c s) = rw (===-refl (String.◌∷◌ c s)) refl

ends_with-append : (p t : String) → ends_with (String.◌++◌ p t) t ≡ true
unfolding ends_with
ends_with-append String.[] t = rw nil-append (ends_with_refl t)
ends_with-append (String.◌∷◌ c p) t = rw cons-append (ground (arith, ends_with-append p t))

pub ends_with_iff : (s t : String) → (ends_with s t ≡ true) ↔ ((p : String) × (s ≡ String.◌++◌ p t))
ends_with_iff s t = (ends_with_sound s t, λ (p, e). rw e (ends_with-append p t))

drop_end_all : (n : ℕ) (t : String) → count t ≤ n → drop_end n t ≡ ""
unfolding drop_end
drop_end_all n String.[] h = refl
drop_end_all n (String.◌∷◌ c s) h = ground arith

pub drop_end-append : (p t : String) → drop_end (count t) (String.◌++◌ p t) ≡ p
unfolding drop_end
drop_end-append String.[] t = rw nil-append (drop_end_all (count t) t (omega arith))
drop_end-append (String.◌∷◌ c p) t =
    let size : count t < count (String.◌∷◌ c (String.◌++◌ p t)) =
      omega (arith, length-cons c (String.◌++◌ p t), length-append p t) in
    rw cons-append (ground (arith, size, drop_end-append p t))
