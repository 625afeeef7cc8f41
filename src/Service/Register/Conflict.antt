-- ===== src/Service/Register/Conflict.antt =====
-- A registration with an e-mail that is taken.
use bankos.Prelude.{
  String, ◌≡◌, refl, true, List, [], ◌∷◌, ◌===◌, ok, err, domain_error, any, length, ltb, Elem,
  any_sound, arith,
}
use bankos.Database.{IsPrisma}
use bankos.Database.Rows.{UserRow}
use bankos.Repository.Users as Users
use bankos.Runtime.World.{World}
use bankos.Service.Register.{register}
use bankos.Service.Setup.{Setup, RegisterUserRequest}
use bankos.Validator.Email.{normalize, is_valid}
use bankos.Validator.Password.{validate}

nonempty-length : {A : Type 0} (a : A) (xs : List A) → Elem a xs → ltb 0 (length xs) ≡ true
nonempty-length a [] m = elim m [ ]
nonempty-length a (x ∷ xs) m = ground arith

module _ (s : Setup) (laws : IsPrisma s.env.prisma) (request : RegisterUserRequest) where
  exists_lem :
      (email : String) (w : World)
      → any (λ (r : UserRow). r.email === email) w.users ≡ true
      → Users.exists s.env email w ≡ (ok true, w)
  unfolding Users.exists
  exists_lem email w taken =
      let (r, listed, fits) = any_sound (λ (r : UserRow). r.email === email) w.users taken in
      let found =
        (laws.user_laws.find_many_iff (λ r. r.email === email) w.users r).1 (listed, fits) in
      rw (nonempty-length r _ found) refl

  -- With an e-mail that is valid and that an account has already, once it is normalized, and a
  -- password that passes, a registration throws and writes nothing.
  pub register_refuses_taken :
      (w : World)
      → is_valid (normalize s.env request.email) ≡ true
      → validate request.password_raw ≡ true
      → any (λ (r : UserRow). r.email === normalize s.env request.email) w.users ≡ true
      → register s request w ≡ (err (domain_error "Email is already registered"), w)
  unfolding register
  register_refuses_taken w valid strong taken = rw (valid, strong, exists_lem _ w taken) refl
