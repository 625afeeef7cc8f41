-- ===== src/Engine/Resolver/Closure.antt =====
-- The resolved names are the given ones with all their ancestors, each once.
use bankos.Prelude.{
  ℕ, zero, suc, String, ◌≡◌, refl, ◌⊎◌, ◌↔◌, Bool, true, false, inl, inr, some, none, List, [], ◌∷◌,
  ◌++◌, arith, length, Elem, here, there, first, includes, includes-append, includes_self,
  includes_weaken, ◌===◌, ===_iff, ===-refl, Bool-cases, Option-cases,
}
use bankos.Domain.Access.{Role}
use bankos.Engine.Resolver.{
  role_map_get, parent_role, collect_roles, collect_all, resolve_effective_roles,
}

abbrev pub Distinct : List String → Type 0
Distinct [] = Unit
Distinct (x ∷ xs) = (includes xs x ≡ false) × Distinct xs

Distinct-append :
    (xs : List String) (a : String) → Distinct xs → includes xs a ≡ false → Distinct (xs ++ a ∷ [])
Distinct-append [] a d h = (refl, tt)
Distinct-append (x ∷ xs) a (fresh, d) h = (
  ground (arith, includes-append xs a x, ===_iff a x, ===_iff x a),
  Distinct-append xs a d (ground arith),
)

first-role_map_get :
    (p : Role → Bool) (roles : List Role) {role : Role}
    → first p roles ≡ some role
    → (named : Role) × (role_map_get roles role.name ≡ some named)
unfolding role_map_get
first-role_map_get p [] e = cc
first-role_map_get p (r ∷ rs) {role} e = elim (Bool-cases (p r)) [
  | inl holds ↦
      let same : r ≡ role = ground arith in
      elim (Option-cases (role_map_get rs role.name)) [
        | inl unseen ↦ (r, rw (unseen, role_map_get) (ground (arith, ===-refl role.name)))
        | inr (later, found) ↦ (later, rw (found, role_map_get) refl)
      ]
  | inr fails ↦
      let (later, found) = first-role_map_get p rs {role = role} (ground arith) in
      (later, rw (found, role_map_get) refl)
]

module _ (roles : List Role) where
  -- `name` is a role whose chain of parents reaches `m`.
  pub data Inherits : String → String → Type 0 where
    itself :
        {name : String} {role : Role} → role_map_get roles name ≡ some role → Inherits name name
    parent :
        {name m : String} {role p : Role}
        → role_map_get roles name ≡ some role
        → parent_role roles role ≡ some p
        → Inherits p.name m
        → Inherits name m

  parent_role-known :
      (role p : Role)
      → parent_role roles role ≡ some p
      → (named : Role) × (role_map_get roles p.name ≡ some named)
  unfolding parent_role
  parent_role-known role p e = elim (Option-cases role.parent_id) [
    | inl orphan ↦ cc (rw orphan at e)
    | inr (id, given) ↦ elim (Bool-cases (id === "")) [
      | inl empty ↦ cc (rw (given, empty) at e)
      | inr real ↦ first-role_map_get (λ (r : Role). r.id === id) roles (rw (given, real) at e)
    ]
  ]

  -- Each name is followed by its role's parent, but for the name that is about to be collected.
  ClosedBut : String → List String → Type 0
  ClosedBut pending names =
      (m : String) (role p : Role)
      → includes names m ≡ true
      → role_map_get roles m ≡ some role
      → parent_role roles role ≡ some p
      → (includes names p.name ≡ true) ⊎ (p.name ≡ pending)

  Closed : List String → Type 0
  Closed names =
      (m : String) (role p : Role)
      → includes names m ≡ true
      → role_map_get roles m ≡ some role
      → parent_role roles role ≡ some p
      → includes names p.name ≡ true

  record Collected (name : String) (before after : List String) : Type 0 where
    grows : (m : String) → includes before m ≡ true → includes after m ≡ true
    sound : (m : String) → includes after m ≡ true → (includes before m ≡ true) ⊎ Inherits name m
    reached : (role : Role) → role_map_get roles name ≡ some role → includes after name ≡ true
    distinct : Distinct before → Distinct after
    closed : ClosedBut name before → Closed after

  Collected-seen :
      (name : String) (before : List String)
      → includes before name ≡ true
      → Collected name before before
  unfolding ClosedBut Closed
  Collected-seen name before seen = record {
    grows = λ m h. h;
    sound = λ m h. inl h;
    reached = λ role _. seen;
    distinct = λ d. d;
    closed = λ c m role p h known e. elim (c m role p h known e) [
      | inl found ↦ found
      | inr same ↦ rw same seen
    ];
  }

  Collected-unknown :
      (name : String) (before : List String)
      → role_map_get roles name ≡ none
      → Collected name before before
  unfolding ClosedBut Closed
  Collected-unknown name before unknown = record {
    grows = λ m h. h;
    sound = λ m h. inl h;
    reached = λ role known. cc;
    distinct = λ d. d;
    closed = λ c m role p h known e. elim (c m role p h known e) [
      | inl found ↦ found
      | inr same ↦ let (named, found) = parent_role-known role p e in cc (rw same at found)
    ];
  }

  Collected-top :
      (name : String) (before : List String) {role : Role}
      → includes before name ≡ false
      → role_map_get roles name ≡ some role
      → parent_role roles role ≡ none
      → Collected name before (before ++ name ∷ [])
  unfolding ClosedBut Closed
  Collected-top name before new known top = record {
    grows = λ m h. includes_weaken before name m h;
    sound = λ m h. elim (Bool-cases (name === m)) [
      | inl same ↦ inr (rw (← (===_iff name m).0 same) (itself known))
      | inr other ↦ inl (ground (arith, includes-append before name m))
    ];
    reached = λ role _. includes_self before name;
    distinct = λ d. Distinct-append before name d new;
    closed = λ c m role' p h known' e. elim (Bool-cases (name === m)) [
      | inl same ↦ cc ((===_iff name m).0 same)
      | inr other ↦ elim (c m role' p (ground (arith, includes-append before name m)) known' e) [
        | inl found ↦ includes_weaken before name p.name found
        | inr same ↦ rw same (includes_self before name)
      ]
    ];
  }

  Collected-parent :
      (name : String) (before after : List String) {role p : Role}
      → includes before name ≡ false
      → role_map_get roles name ≡ some role
      → parent_role roles role ≡ some p
      → Collected p.name (before ++ name ∷ []) after
      → Collected name before after
  unfolding ClosedBut Closed
  Collected-parent name before after {role} {p} new known e c = record {
    grows = λ m h. c.grows m (includes_weaken before name m h);
    sound = λ m h. elim (c.sound m h) [
      | inr above ↦ inr (parent known e above)
      | inl within ↦ elim (Bool-cases (name === m)) [
        | inl same ↦ inr (rw (← (===_iff name m).0 same) (itself known))
        | inr other ↦ inl (ground (arith, includes-append before name m))
      ]
    ];
    reached = λ role _. c.grows name (includes_self before name);
    distinct = λ d. c.distinct (Distinct-append before name d new);
    closed = λ cb. c.closed λ m role' q h known' e'. elim (Bool-cases (name === m)) [
      | inl same ↦ inr (ground (arith, (===_iff name m).0 same))
      | inr other ↦ elim (cb m role' q (ground (arith, includes-append before name m)) known' e') [
        | inl found ↦ inl (includes_weaken before name q.name found)
        | inr same ↦ inl (rw same (includes_self before name))
      ]
    ];
  }

  collect_roles-Collected :
      (fuel : ℕ) (name : String) (before after : List String)
      → collect_roles roles fuel name before ≡ some after
      → Collected name before after
  unfolding collect_roles
  collect_roles-Collected zero name before after h = cc
  collect_roles-Collected (suc fuel) name before after h =
      elim (Bool-cases (includes before name)) [
        | inl seen ↦
            let same : before ≡ after = ground arith in
            rw (← same) (Collected-seen name before seen)
        | inr new ↦ elim (Option-cases (role_map_get roles name)) [
          | inl unknown ↦
              let same : before ≡ after = ground arith in
              rw (← same) (Collected-unknown name before unknown)
          | inr (role, known) ↦ elim (Option-cases (parent_role roles role)) [
            | inl top ↦
                let same : before ++ name ∷ [] ≡ after = ground arith in
                rw (← same) (Collected-top name before new known top)
            | inr (p, e) ↦
                Collected-parent name before after new known e
                  (collect_roles-Collected fuel p.name (before ++ name ∷ []) after (ground arith))
          ]
        ]
      ]

  Closed-ClosedBut : (name : String) (names : List String) → Closed names → ClosedBut name names
  unfolding Closed ClosedBut
  Closed-ClosedBut name names c m role p h known e = inl (c m role p h known e)

  record CollectedAll (names before after : List String) : Type 0 where
    grows : (m : String) → includes before m ≡ true → includes after m ≡ true
    sound :
        (m : String)
        → includes after m ≡ true
        → (includes before m ≡ true) ⊎ ((name : String) × Elem name names × Inherits name m)
    reached :
        (name : String) (role : Role)
        → Elem name names
        → role_map_get roles name ≡ some role
        → includes after name ≡ true
    distinct : Distinct before → Distinct after
    closed : Closed before → Closed after

  CollectedAll-cons :
      (name : String) (names before next after : List String)
      → Collected name before next
      → CollectedAll names next after
      → CollectedAll (name ∷ names) before after
  CollectedAll-cons name names before next after c cs = record {
    grows = λ m h. cs.grows m (c.grows m h);
    sound = λ m h. elim (cs.sound m h) [
      | inr (n, listed, above) ↦ inr (n, there listed, above)
      | inl within ↦ elim (c.sound m within) [
        | inl old ↦ inl old
        | inr above ↦ inr (name, here, above)
      ]
    ];
    reached = reached;
    distinct = λ d. cs.distinct (c.distinct d);
    closed = λ d. cs.closed (c.closed (Closed-ClosedBut name before d));
  }
    where
      reached :
          (n : String) (role : Role)
          → Elem n (name ∷ names)
          → role_map_get roles n ≡ some role
          → includes after n ≡ true
      reached n role here known = cs.grows n (c.reached role known)
      reached n role (there m) known = cs.reached n role m known

  collect_all-CollectedAll :
      (fuel : ℕ) (names before after : List String)
      → collect_all roles fuel names before ≡ some after
      → CollectedAll names before after
  unfolding collect_all
  collect_all-CollectedAll fuel [] before after h =
      let same : before ≡ after = ground arith in
      rw (← same) (record {
        grows = λ m h. h;
        sound = λ m h. inl h;
        reached = λ name role m _. elim m [ ];
        distinct = λ d. d;
        closed = λ d. d;
      })
  collect_all-CollectedAll fuel (name ∷ names) before after h =
      elim (Option-cases (collect_roles roles fuel name before)) [
        | inl stuck ↦ cc (rw (stuck, collect_all) at h)
        | inr (next, e) ↦
            CollectedAll-cons name names before next after
              (collect_roles-Collected fuel name before next e)
              (collect_all-CollectedAll fuel names next after (rw (e, collect_all) at h))
      ]

  Closed-Inherits :
      (names : List String) {name m : String}
      → Closed names
      → includes names name ≡ true
      → Inherits name m
      → includes names m ≡ true
  unfolding Closed
  Closed-Inherits names c h (itself known) = h
  Closed-Inherits names c h (parent {name} {role} {p} known e above) =
      Closed-Inherits names c (c name role p h known e) above

  Closed-nil : Closed []
  unfolding Closed
  Closed-nil m role p h known e = cc

  Inherits-known :
      {name m : String} → Inherits name m → (role : Role) × (role_map_get roles name ≡ some role)
  Inherits-known (itself {role} known) = (role, known)
  Inherits-known (parent {role} known e above) = (role, known)

-- A name is resolved exactly when one of the given names is a role whose chain of parents reaches
-- it, and no name is resolved twice.
pub resolve_effective_roles_iff :
    (roles : List Role) (names result : List String) (m : String)
    → resolve_effective_roles roles names ≡ some result
    → ((includes result m ≡ true) ↔ ((name : String) × Elem name names × Inherits roles name m))
      × Distinct result
unfolding resolve_effective_roles
resolve_effective_roles_iff roles names result m e =
    let c = collect_all-CollectedAll roles (suc (length roles)) names [] result e in
    (
      (
        λ h. elim (c.sound m h) [ inl old ↦ cc | inr found ↦ found ],
        λ (name, listed, above).
            let (role, known) = Inherits-known roles above in
            Closed-Inherits roles result (c.closed (Closed-nil roles))
              (c.reached name role listed known) above,
      ),
      c.distinct tt,
    )
