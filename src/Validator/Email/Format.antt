-- ===== src/Validator/Email/Format.antt =====
-- What a valid e-mail address looks like.
use bankos.Prelude.{
  ℕ, String, ◌≡◌, ◌≢◌, refl, ap, ◌∙◌, ◌↔◌, inl, inr, Bool, true, false, ◌&&◌, List, [], ◌∷◌, ◌++◌,
  arith, all, ◌==◌, Bool-cases,
}
use bankos.Text.{codes}
use bankos.Validator.Email.{is_atom, ends_in_atoms, has_dot, local_part, is_valid}

-- A text without white space and `@`, not empty.
abbrev pub IsAtoms : List ℕ → Type 0
IsAtoms cs = (cs ≢ []) × (all is_atom cs ≡ true)

-- `local@domain.rest`
pub record IsAddress (cs : List ℕ) : Type 0 where
  pub user : List ℕ
  pub host : List ℕ
  pub top : List ℕ
  pub user_atoms : IsAtoms user
  pub host_atoms : IsAtoms host
  pub top_atoms : IsAtoms top
  pub parts : cs ≡ user ++ (b'@' ∷ (host ++ (b'.' ∷ top)))

-- What is left to read after the characters `before`.
record IsDomain (before cs : List ℕ) : Type 0 where
  host : List ℕ
  top : List ℕ
  started : (before ++ host) ≢ []
  host_atoms : all is_atom host ≡ true
  top_atoms : IsAtoms top
  parts : cs ≡ host ++ (b'.' ∷ top)

ends_in_atoms_iff : (cs : List ℕ) → (ends_in_atoms cs ≡ true) ↔ IsAtoms cs
unfolding ends_in_atoms
ends_in_atoms_iff [] = (λ h. cc, λ h. absurd (h.0 refl))
ends_in_atoms_iff (c ∷ cs) = (λ h. (λ e. cc, h), λ h. h.1)

abbrev marker : Bool → List ℕ
marker true = 0 ∷ []
marker false = []

has_dot_sound : (seen : Bool) (cs : List ℕ) → has_dot seen cs ≡ true → IsDomain (marker seen) cs
unfolding has_dot
has_dot_sound seen [] h = cc
has_dot_sound seen (c ∷ cs) h = elim (Bool-cases (seen && (c == b'.' && ends_in_atoms cs))) [
  | inl here ↦ stop here
  | inr not_here ↦ go (has_dot_sound true cs (ground arith)) (ground arith)
]
  where
    stop : (seen && (c == b'.' && ends_in_atoms cs)) ≡ true → IsDomain (marker seen) (c ∷ cs)
    stop e =
        let was : seen ≡ true = ground arith in
        let dot : c ≡ b'.' = ground arith in
        record {
          host = [];
          top = cs;
          started = rw was (λ p. cc);
          host_atoms = refl;
          top_atoms = (ends_in_atoms_iff cs).0 (ground arith);
          parts = rw dot refl;
        }

    go : IsDomain (marker true) cs → is_atom c ≡ true → IsDomain (marker seen) (c ∷ cs)
    go d atom = record {
      host = c ∷ d.host;
      top = d.top;
      started = started seen;
      host_atoms = rw (atom, d.host_atoms) refl;
      top_atoms = d.top_atoms;
      parts = ap (λ l. c ∷ l) d.parts;
    }
      where
        started : (b : Bool) → (marker b ++ (c ∷ d.host)) ≢ []
        started true p = cc
        started false p = cc

has_dot_complete :
    (seen : Bool) (host top : List ℕ)
    → (marker seen ++ host) ≢ []
    → all is_atom host ≡ true
    → IsAtoms top
    → has_dot seen (host ++ (b'.' ∷ top)) ≡ true
unfolding has_dot
has_dot_complete true [] top started atoms h = rw ((ends_in_atoms_iff top).1 h) refl
has_dot_complete false [] top started atoms h = absurd (started refl)
has_dot_complete seen (c ∷ host) top started atoms h =
    let ih = has_dot_complete true host top (λ p. cc) (ground arith) h in ground (arith, ih)

-- `local_part` finds the `@`.
record Splits (before cs : List ℕ) : Type 0 where
  user : List ℕ
  domain : List ℕ
  started : (before ++ user) ≢ []
  user_atoms : all is_atom user ≡ true
  dotted : has_dot false domain ≡ true
  parts : cs ≡ user ++ (b'@' ∷ domain)

marker-cons : (b : Bool) (c : ℕ) (user : List ℕ) → (marker b ++ (c ∷ user)) ≢ []
marker-cons true c user p = cc
marker-cons false c user p = cc

local_part_sound : (seen : Bool) (cs : List ℕ) → local_part seen cs ≡ true → Splits (marker seen) cs
unfolding local_part
local_part_sound seen [] h = cc
local_part_sound seen (c ∷ cs) h = elim (Bool-cases (c == b'@')) [
  | inl at ↦
      let was : seen ≡ true = ground arith in
      let sign : c ≡ b'@' = ground arith in
      record {
        user = [];
        domain = cs;
        started = rw was (λ p. cc);
        user_atoms = refl;
        dotted = ground arith;
        parts = rw sign refl;
      }
  | inr other ↦
      let s = local_part_sound true cs (ground arith) in
      record {
        user = c ∷ s.user;
        domain = s.domain;
        started = marker-cons seen c s.user;
        user_atoms = ground (arith, s.user_atoms);
        dotted = s.dotted;
        parts = ap (λ l. c ∷ l) s.parts;
      }
]

local_part_complete :
    (seen : Bool) (user domain : List ℕ)
    → (marker seen ++ user) ≢ []
    → all is_atom user ≡ true
    → has_dot false domain ≡ true
    → local_part seen (user ++ (b'@' ∷ domain)) ≡ true
unfolding local_part is_atom
local_part_complete true [] domain started atoms h = h
local_part_complete false [] domain started atoms h = absurd (started refl)
local_part_complete seen (c ∷ user) domain started atoms h =
    let ih = local_part_complete true user domain (λ p. cc) (ground arith) h in ground (arith, ih)

-- An address is valid exactly when it reads `user@host.top`, with each of the three parts not empty and
-- free of white space and of `@`.
pub is_valid_iff : (email : String) → (is_valid email ≡ true) ↔ IsAddress (codes email)
unfolding is_valid
is_valid_iff email = (sound, complete)
  where
    sound : local_part false (codes email) ≡ true → IsAddress (codes email)
    sound h =
        let s = local_part_sound false (codes email) h in
        let d = has_dot_sound false s.domain s.dotted in
        record {
          user = s.user;
          host = d.host;
          top = d.top;
          user_atoms = (s.started, s.user_atoms);
          host_atoms = (d.started, d.host_atoms);
          top_atoms = d.top_atoms;
          parts = s.parts ∙ ap (λ l. s.user ++ (b'@' ∷ l)) d.parts;
        }

    complete : IsAddress (codes email) → local_part false (codes email) ≡ true
    complete a = rw a.parts (
        local_part_complete false a.user (a.host ++ (b'.' ∷ a.top)) a.user_atoms.0 a.user_atoms.1
          (has_dot_complete false a.host a.top a.host_atoms.0 a.host_atoms.1 a.top_atoms))
