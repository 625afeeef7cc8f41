-- ===== src/Cache/Laws.antt =====
-- What a Redis server promises of the commands that the services send: which entry a key has at a time.
-- The client may refuse any call.
use bankos.Prelude.{
  ℕ, suc, ◌+◌, ◌*◌, ◌≤◌, String, ◌≡◌, Bool, true, Option, none, some, [], ◌∷◌, ◌===◌, ltb,
  if◌then◌else◌, is_some,
}
use bankos.Runtime.Packages.{Redis, Entry, Keyspace, Ttl, no_expiry, seconds}

-- An entry is gone from its end on.
unfoldable pub is_alive : ℕ → Option ℕ → Bool
is_alive t none = true
is_alive t (some end) = ltb t end

unfoldable pub while_alive : ℕ → Entry → Option Entry
unfolding is_alive
while_alive t entry = if is_alive t entry.expires_at then some entry else none

-- The entry of a key at a time.
unfoldable pub entry_at : ℕ → String → Keyspace → Option Entry
entry_at t key [] = none
entry_at t key ((name, entry) ∷ rest) =
    if name === key then while_alive t entry else entry_at t key rest

-- The commands, by the entries that are read later, at any time from then on: `SET key value EX seconds`,
-- `EXISTS`, `INCR` with `TTL`, and `EXPIRE`. `numeral` is how the server writes a number.
pub record IsRedis (redis : Redis) : Type 0 where
  pub numeral : ℕ → String
  pub set_ex_lem :
      (now t ttl : ℕ) (key other value : String) (keys keys' : Keyspace)
      → redis.set_ex now key value ttl keys ≡ some keys'
      → now ≤ t
      → entry_at t other keys' ≡ (
          if key === other
          then while_alive t (record { value = value; expires_at = some (now + ttl * 1000) })
          else entry_at t other keys)
  pub exists_lem :
      (now n : ℕ) (key : String) (keys : Keyspace)
      → redis.exists now key keys ≡ some n
      → ltb 0 n ≡ is_some (entry_at now key keys)
  -- A key that is not there counts from 0 and gets no end.
  pub incr_new :
      (now t n : ℕ) (key : String) (r : Ttl) (keys keys' : Keyspace)
      → redis.multi_incr_ttl now key keys ≡ some ((n, r), keys')
      → entry_at now key keys ≡ none
      → (n ≡ 1)
        × (r ≡ no_expiry)
        × (entry_at t key keys' ≡ some (record { value = numeral 1; expires_at = none }))
  -- A key that is there keeps its end.
  pub incr_known :
      (now t n count end : ℕ) (key : String) (r : Ttl) (keys keys' : Keyspace)
      → redis.multi_incr_ttl now key keys ≡ some ((n, r), keys')
      → entry_at now key keys ≡ some (record { value = numeral count; expires_at = some end })
      → now ≤ t
      → (n ≡ suc count)
        × ((left : ℕ) × (r ≡ seconds left))
        × (entry_at t key keys'
            ≡ while_alive t (record { value = numeral (suc count); expires_at = some end }))
  pub expire_lem :
      (now t ttl : ℕ) (key : String) (entry : Entry) (keys keys' : Keyspace)
      → redis.expire now key ttl keys ≡ some keys'
      → entry_at now key keys ≡ some entry
      → now ≤ t
      → entry_at t key keys'
        ≡ while_alive t (record { value = entry.value; expires_at = some (now + ttl * 1000) })
