-- ===== src/Runtime/Action.antt =====
-- Actions: they return or throw, and what they wrote before they threw stays written. There is no
-- transaction around a service.
use bankos.Prelude.{
  ℕ, ◌+◌, ◌/◌, String, Bool, Option, none, some, List, [], ◌∷◌, Thrown, failure, Result, ok, err,
  if◌then◌else◌,
}
use bankos.Runtime.Packages.{Packages}
use bankos.Runtime.World.{World}

abbrev pub Action : Type 0 → Type 0
Action A = World → Result A × World

module _ {A : Type 0} where
  abbrev pub pure : A → Action A
  pure a w = (ok a, w)

  abbrev pub throw : Thrown → Action A
  throw e w = (err e, w)

  -- A value that a call returned, or what it threw.
  abbrev pub lift : Result A → Action A
  lift r w = (r, w)

  abbrev pub gets : (World → A) → Action A
  gets f w = (ok (f w), w)

  abbrev pub or_throw : Option A → Thrown → Action A
  or_throw none e = throw e
  or_throw (some a) _ = pure a

module _ {A B : Type 0} where
  abbrev pub continue : Result A → (A → Action B) → Action B
  continue (ok a) f = f a
  continue (err e) f = throw e

  infixl 5 ◌>>=◌ ◌>>◌
  abbrev pub ◌>>=◌ : Action A → (A → Action B) → Action B
  ◌>>=◌ m f w = let (r, w') = m w in continue r f w'

  abbrev pub ◌>>◌ : Action A → Action B → Action B
  m >> k = m >>= λ _. k

abbrev pub done : Action (Unit {0})
done = pure tt

-- `if (test) throw e`
abbrev pub throw_if : Bool → Thrown → Action (Unit {0})
throw_if b e = if b then throw e else done

-- `for (const x of xs) await body(x)`
unfoldable pub for_each : {A : Type 0} → (A → Action (Unit {0})) → List A → Action (Unit {0})
for_each body [] = done
for_each body (x ∷ xs) = body x >> for_each body xs

-- What a client throws.
abbrev pub database_error : Thrown
database_error = failure "PrismaClientKnownRequestError"

abbrev pub redis_error : Thrown
redis_error = failure "ReplyError"

-- A write: what it leaves behind, or the state as it was where the client throws.
abbrev pub stored : {T : Type 0} → Option T → (T → World) → Thrown → Action (Unit {0})
stored none put e w = (err e, w)
stored (some t) put e w = (ok tt, put t)

module _ (env : Packages) where
  -- `new Date()`: infrastructure/crypto/SystemClock.ts, `now` and `unix`.
  abbrev pub now : Action ℕ
  now w = (ok (env.time w.ticks), record w { ticks = w.ticks + 1 })

  abbrev pub unix : Action ℕ
  unix w = (ok (env.time w.ticks / 1000), record w { ticks = w.ticks + 1 })

  -- infrastructure/crypto/SecureRandomGenerator.ts.
  abbrev pub generate_uuid : Action String
  generate_uuid w = (ok (env.random_uuid w.draws), record w { draws = w.draws + 1 })

  abbrev pub generate_token : ℕ → Action String
  generate_token length w =
      (ok (env.random_bytes_hex w.draws length), record w { draws = w.draws + 1 })

  abbrev pub hash_string : String → String
  hash_string text = env.sha256_hex text
