-- ===== src/Prelude/Errors.antt =====
-- The errors that the source throws, and a result that may be one.
use Prim.Native.String.{String}

-- core/errors: `DomainError`, its subclass `InvalidStateError`, and any other `Error` (those of the
-- libraries and plain ones), each with its message.
pub data Thrown : Type 0 where
  domain_error : String → Thrown
  invalid_state : String → Thrown
  failure : String → Thrown

pub data Result {ℓ} (A : Type ℓ) : Type ℓ where
  ok : A → Result A
  err : Thrown → Result A
