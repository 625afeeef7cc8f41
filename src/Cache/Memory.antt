-- ===== src/Cache/Memory.antt =====
-- A Redis server in memory, which keeps the laws; a newer entry stands before an older one.
use mathlib.Core.Option
use bankos.Prelude.{
  ℕ, zero, suc, ◌+◌, ◌*◌, String, ◌≡◌, refl, ap, ◌∙◌, sym, Option, none, some, ◌∷◌, ◌===◌, ===-refl,
  ltb, if◌then◌else◌, is_some,
}
use Prim.Native.String.{count}
use bankos.Cache.Laws.{IsRedis, entry_at, while_alive, is_alive}
use bankos.Runtime.Packages.{Redis, Entry, Keyspace, Ttl, no_expiry, seconds}
use bankos.Text.{codes}
use bankos.Prelude.{length}

-- The number as that many strokes.
abbrev pub strokes : ℕ → String
strokes zero = ""
strokes (suc n) = String.◌∷◌ "|" (strokes n)

abbrev number : String → ℕ
number text = length (codes text)

number-strokes : (n : ℕ) → number (strokes n) ≡ n
number-strokes zero = refl
number-strokes (suc n) = ap suc (number-strokes n)

abbrev put : String → Entry → Keyspace → Keyspace
put key entry keys = (key, entry) ∷ keys

entry_at-put :
    (t : ℕ) (key other : String) (entry : Entry) (keys : Keyspace)
    → entry_at t other (put key entry keys)
      ≡ (if key === other then while_alive t entry else entry_at t other keys)
unfolding entry_at
entry_at-put t key other entry keys = refl

entry_at-put_same :
    (t : ℕ) (key : String) (entry : Entry) (keys : Keyspace)
    → entry_at t key (put key entry keys) ≡ while_alive t entry
entry_at-put_same t key entry keys = entry_at-put t key key entry keys ∙ rw (===-refl key) refl

abbrev raised : Option Entry → Entry
raised none = record { value = strokes 1; expires_at = none }
raised (some entry) = record entry { value = strokes (suc (number entry.value)) }

abbrev left : Option ℕ → Ttl
left none = no_expiry
left (some end) = seconds end

abbrev exists_in : Option Entry → ℕ
exists_in none = 0
exists_in (some entry) = 1

abbrev expire_in : String → ℕ → Option Entry → Keyspace → Keyspace
expire_in key end none keys = keys
expire_in key end (some entry) keys = put key (record entry { expires_at = some end }) keys

abbrev pub memory : Redis
memory = record {
  set_ex = λ now key value ttl keys.
      some (put key (record { value = value; expires_at = some (now + ttl * 1000) }) keys);
  set_plain =
      λ now key value keys. some (put key (record { value = value; expires_at = none }) keys);
  get = λ now key keys. some (Option.map (λ e. e.value) (entry_at now key keys));
  exists = λ now key keys. some (exists_in (entry_at now key keys));
  del = λ now key keys. some (put key (record { value = ""; expires_at = some 0 }) keys);
  expire = λ now key ttl keys. some (expire_in key (now + ttl * 1000) (entry_at now key keys) keys);
  incr = λ now key keys.
      let entry = raised (entry_at now key keys) in some (number entry.value, put key entry keys);
  multi_incr_ttl = λ now key keys.
      let entry = raised (entry_at now key keys) in
      some ((number entry.value, left entry.expires_at), put key entry keys);
}

exists_in-is_some : (e : Option Entry) → ltb 0 (exists_in e) ≡ is_some e
exists_in-is_some none = refl
exists_in-is_some (some entry) = refl

-- What a command answers is all that it answers.
unsome : {A : Type 0} (a b : A) → some a ≡ some b → a ≡ b
unsome a b e = cc

set_ex-holds :
    (now t ttl : ℕ) (key other value : String) (keys keys' : Keyspace)
    → memory.set_ex now key value ttl keys ≡ some keys'
    → entry_at t other keys' ≡ (
        if key === other
        then while_alive t (record { value = value; expires_at = some (now + ttl * 1000) })
        else entry_at t other keys)
set_ex-holds now t ttl key other value keys keys' e =
    ap (entry_at t other) (sym (unsome _ keys' e))
    ∙ entry_at-put t key other (record { value = value; expires_at = some (now + ttl * 1000) }) keys

exists-counts :
    (now n : ℕ) (key : String) (keys : Keyspace)
    → memory.exists now key keys ≡ some n
    → ltb 0 n ≡ is_some (entry_at now key keys)
exists-counts now n key keys e =
    ap (ltb 0) (sym (unsome (exists_in (entry_at now key keys)) n e))
    ∙ exists_in-is_some (entry_at now key keys)

incr-new :
    (now t n : ℕ) (key : String) (r : Ttl) (keys keys' : Keyspace)
    → memory.multi_incr_ttl now key keys ≡ some ((n, r), keys')
    → entry_at now key keys ≡ none
    → (n ≡ 1)
      × (r ≡ no_expiry)
      × (entry_at t key keys' ≡ some (record { value = strokes 1; expires_at = none }))
unfolding while_alive is_alive
incr-new now t n key r keys keys' e absent =
    let answers = unsome _ ((n, r), keys') (rw absent at e) in
    (
      sym (ap (λ x. x.0.0) answers),
      sym (ap (λ x. x.0.1) answers),
      ap (λ x. entry_at t key x.1) (sym answers)
          ∙ entry_at-put_same t key (record { value = strokes 1; expires_at = none }) keys,
    )

incr-known :
    (now t n count end : ℕ) (key : String) (r : Ttl) (keys keys' : Keyspace)
    → memory.multi_incr_ttl now key keys ≡ some ((n, r), keys')
    → entry_at now key keys ≡ some (record { value = strokes count; expires_at = some end })
    → (n ≡ suc count)
      × ((left : ℕ) × (r ≡ seconds left))
      × (entry_at t key keys'
          ≡ while_alive t (record { value = strokes (suc count); expires_at = some end }))
incr-known now t n count end key r keys keys' e known =
    let answers = unsome _ ((n, r), keys') (rw known at e) in
    let counted = number-strokes count in
    (
      sym (ap (λ x. x.0.0) answers) ∙ ap (λ k. suc (number (strokes k))) counted ∙ ap suc counted,
      (end, sym (ap (λ x. x.0.1) answers)),
      ap (λ x. entry_at t key x.1) (sym answers)
          ∙ entry_at-put_same t key _ keys
          ∙ ap (λ k. while_alive t (record { value = strokes (suc k); expires_at = some end }))
              counted,
    )

expire-holds :
    (now t ttl : ℕ) (key : String) (entry : Entry) (keys keys' : Keyspace)
    → memory.expire now key ttl keys ≡ some keys'
    → entry_at now key keys ≡ some entry
    → entry_at t key keys'
      ≡ while_alive t (record { value = entry.value; expires_at = some (now + ttl * 1000) })
expire-holds now t ttl key entry keys keys' e known =
    ap (entry_at t key) (sym (unsome _ keys' (rw known at e)))
    ∙ entry_at-put_same t key (record entry { expires_at = some (now + ttl * 1000) }) keys

pub memory-IsRedis : IsRedis memory
memory-IsRedis = record {
  numeral = strokes;
  set_ex_lem = λ now t ttl key other value keys keys' e later.
      set_ex-holds now t ttl key other value keys keys' e;
  exists_lem = exists-counts;
  incr_new = incr-new;
  incr_known = λ now t n count end key r keys keys' e known later.
      incr-known now t n count end key r keys keys' e known;
  expire_lem = λ now t ttl key entry keys keys' e known later.
      expire-holds now t ttl key entry keys keys' e known;
}
