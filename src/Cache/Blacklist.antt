-- ===== src/Cache/Blacklist.antt =====
-- How long a token stays on the blacklist.
use bankos.Prelude.{
  ℕ, ◌+◌, ◌*◌, ◌≤◌, String, ◌≡◌, refl, ap, ◌∙◌, some, ===-refl, ltb, is_some, ok, inl, inr,
  Bool-cases,
}
use bankos.Cache.{get_blacklist_key, is_blacklisted}
use bankos.Cache.Laws.{IsRedis, entry_at, while_alive, is_alive}
use bankos.Runtime.Packages.{Packages, Keyspace}
use bankos.Runtime.World.{World}

module _ (env : Packages) (laws : IsRedis env.redis) where
  -- The state after a token was listed at a reading of the clock.
  abbrev pub Lists : String → (ttl : ℕ) → World → Keyspace → Type 0
  Lists jti ttl w keys =
      env.redis.set_ex (env.time w.ticks) (get_blacklist_key env jti) "1" ttl w.keys ≡ some keys

  alive_is :
      (t end : ℕ) (value : String)
      → is_some (while_alive t (record { value = value; expires_at = some end })) ≡ ltb t end
  unfolding while_alive is_alive
  alive_is t end value = elim (Bool-cases (ltb t end)) [
    | inl alive ↦ rw alive refl
    | inr over ↦ rw over refl
  ]

  tested :
      (jti : String) (n : ℕ) (v : World)
      → env.redis.exists (env.time v.ticks) (get_blacklist_key env jti) v.keys ≡ some n
      → is_blacklisted env jti v ≡ (ok (ltb 0 n), record v { ticks = v.ticks + 1 })
  unfolding is_blacklisted
  tested jti n v counted = rw counted refl

  -- A later test of the token, where the server answers it.
  pub listed_until :
      (jti : String) (ttl n : ℕ) (w v : World) (keys : Keyspace)
      → Lists jti ttl w keys
      → v.keys ≡ keys
      → env.time w.ticks ≤ env.time v.ticks
      → env.redis.exists (env.time v.ticks) (get_blacklist_key env jti) v.keys ≡ some n
      → is_blacklisted env jti v ≡ (
        ok (ltb (env.time v.ticks) (env.time w.ticks + ttl * 1000)),
        record v { ticks = v.ticks + 1 },
      )
  listed_until jti ttl n w v keys lists same later counted =
      let key = get_blacklist_key env jti in
      let end = env.time w.ticks + ttl * 1000 in
      let counts : ltb 0 n ≡ is_some (entry_at (env.time v.ticks) key v.keys) =
        laws.exists_lem (env.time v.ticks) n key v.keys counted in
      let held : entry_at (env.time v.ticks) key v.keys
          ≡ while_alive (env.time v.ticks) (record { value = "1"; expires_at = some end }) =
        ap (entry_at (env.time v.ticks) key) same
        ∙ laws.set_ex_lem (env.time w.ticks) (env.time v.ticks) ttl key key "1" w.keys keys lists
            later
        ∙ rw (===-refl key) refl in
      let answers : ltb 0 n ≡ ltb (env.time v.ticks) end =
        counts ∙ ap is_some held ∙ alive_is (env.time v.ticks) end "1" in
      tested jti n v counted ∙ ap (λ b. (ok b, record v { ticks = v.ticks + 1 })) answers
