-- ===== src/Database/Memory.antt =====
-- A database in memory, which keeps the laws: its only test of a new row is that of the unique columns.
use bankos.Prelude.{
  Bool, true, not, ◌≡◌, refl, Option, none, some, List, [], ◌∷◌, ◌++◌, any, first, keep, Elem, here,
  there, Elem-cons, if◌then◌else◌, Bool-cases, inl, inr,
}
use bankos.Database.Delegate.{Model, IsModel, update_where, remove_where}

module _ {Row : Type 0} where
  keep_sound :
      (p : Row → Bool) (t : List Row) (r : Row) → Elem r (keep p t) → Elem r t × (p r ≡ true)
  keep_sound p [] r m = elim m [ ]
  keep_sound p (s ∷ t) r m = elim (Bool-cases (p s)) [
    | inr drops ↦ let (later, holds) = keep_sound p t r (rw drops at m) in (there later, holds)
    | inl holds ↦ elim (Elem-cons (rw holds at m)) [
      | inl same ↦ rw same (here, holds)
      | inr n ↦ let (later, fits) = keep_sound p t r n in (there later, fits)
    ]
  ]

  keep_complete :
      (p : Row → Bool) (t : List Row) (r : Row) → Elem r t → p r ≡ true → Elem r (keep p t)
  keep_complete p [] r m h = elim m [ ]
  keep_complete p (_ ∷ t) r here h = rw h here
  keep_complete p (s ∷ t) r (there m) h = elim (Bool-cases (p s)) [
    | inl holds ↦ rw holds (there (keep_complete p t r m h))
    | inr drops ↦ rw drops (keep_complete p t r m h)
  ]

module _ {Row : Type 0} (clash : Row → Row → Bool) where
  unfoldable pub memory_create : Row → List Row → Option (List Row)
  memory_create r t = if not (any (clash r) t) then some (t ++ r ∷ []) else none

  abbrev pub memory : Model Row
  memory = record {
    find_unique = first;
    find_many = keep;
    create = memory_create;
    update = λ p f t. if any p t then some (update_where p f t) else none;
    update_many = update_where;
    upsert = λ p f r t. if any p t then some (update_where p f t) else memory_create r t;
    delete = λ p t. if any p t then some (remove_where p t) else none;
  }

  pub memory-IsModel : IsModel clash memory
  unfolding memory_create
  memory-IsModel = record {
    accepts = λ r t. not (any (clash r) t);
    accepts_unique = λ r t h. rw h refl;
    find_unique_lem = λ p t. refl;
    find_many_iff = λ p t r. (keep_sound p t r, λ (m, h). keep_complete p t r m h);
    create_lem = λ r t. refl;
    update_lem = λ p f t _. refl;
    update_many_lem = λ p f t _. refl;
    upsert_lem = λ p f r t _. refl;
    delete_lem = λ p t. refl;
  }
