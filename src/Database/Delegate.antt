-- ===== src/Database/Delegate.antt =====
-- The operations of a Prisma model delegate that the repositories call, and what its documentation
-- says of them, for a database that is reachable. `none` is a call that throws.
use bankos.Prelude.{
  Bool, true, false, ◌≡◌, ◌↔◌, Option, none, some, List, [], ◌∷◌, ◌++◌, any, first, Elem,
  if◌then◌else◌,
}

pub record Model (Row : Type 0) : Type 0 where
  pub find_unique : (Row → Bool) → List Row → Option Row
  pub find_many : (Row → Bool) → List Row → List Row
  pub create : Row → List Row → Option (List Row)
  pub update : (Row → Bool) → (Row → Row) → List Row → Option (List Row)
  pub update_many : (Row → Bool) → (Row → Row) → List Row → List Row
  pub upsert : (Row → Bool) → (Row → Row) → Row → List Row → Option (List Row)
  pub delete : (Row → Bool) → List Row → Option (List Row)

module _ {Row : Type 0} where
  -- The rows that fit, each changed.
  unfoldable pub update_where : (Row → Bool) → (Row → Row) → List Row → List Row
  update_where p f [] = []
  update_where p f (r ∷ rs) = (if p r then f r else r) ∷ update_where p f rs

  -- The rows that do not fit.
  unfoldable pub remove_where : (Row → Bool) → List Row → List Row
  remove_where p [] = []
  remove_where p (r ∷ rs) = if p r then remove_where p rs else r ∷ remove_where p rs

-- `accepts` is the database's test of a new row: the unique columns, the column types and the foreign
-- keys. Of it only the unique columns are told. The laws of the updates are for those that leave the
-- unique columns alone.
pub record IsModel {Row : Type 0} (clash : Row → Row → Bool) (m : Model Row) : Type 0 where
  pub accepts : Row → List Row → Bool
  pub accepts_unique : (r : Row) (t : List Row) → any (clash r) t ≡ true → accepts r t ≡ false
  pub find_unique_lem : (p : Row → Bool) (t : List Row) → m.find_unique p t ≡ first p t
  pub find_many_iff :
      (p : Row → Bool) (t : List Row) (r : Row)
      → Elem r (m.find_many p t) ↔ (Elem r t × (p r ≡ true))
  pub create_lem :
      (r : Row) (t : List Row) → m.create r t ≡ (if accepts r t then some (t ++ r ∷ []) else none)
  pub update_lem :
      (p : Row → Bool) (f : Row → Row) (t : List Row)
      → ((r s : Row) → clash (f r) s ≡ clash r s)
      → m.update p f t ≡ (if any p t then some (update_where p f t) else none)
  pub update_many_lem :
      (p : Row → Bool) (f : Row → Row) (t : List Row)
      → ((r s : Row) → clash (f r) s ≡ clash r s)
      → m.update_many p f t ≡ update_where p f t
  pub upsert_lem :
      (p : Row → Bool) (f : Row → Row) (r : Row) (t : List Row)
      → ((r s : Row) → clash (f r) s ≡ clash r s)
      → m.upsert p f r t ≡ (if any p t then some (update_where p f t) else m.create r t)
  pub delete_lem :
      (p : Row → Bool) (t : List Row)
      → m.delete p t ≡ (if any p t then some (remove_where p t) else none)
