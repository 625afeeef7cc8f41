-- ===== src/Cache/Values.antt =====
-- infrastructure/redis/RedisCacheService.ts. A call that the client refuses is thrown on.
use bankos.Prelude.{ℕ, String, Bool, Option, none, some, ltb, ◌==◌, if◌then◌else◌, ok}
use bankos.Runtime.Packages.{Packages, Keyspace}
use bankos.Runtime.Action.{Action, now, or_throw, pure, ◌>>=◌, stored, redis_error}

module _ (env : Packages) where
  unfoldable pub get : String → Action (Option String)
  get key = do t ← now env; λ w. (or_throw (env.redis.get t key w.keys) redis_error) w

  -- `SET` with or without a lifetime; a lifetime of 0 is falsy.
  unfoldable pub set_command : ℕ → (key value : String) → Option ℕ → Keyspace → Option Keyspace
  set_command t key value none keys = env.redis.set_plain t key value keys
  set_command t key value (some ttl_seconds) keys =
      if ttl_seconds == 0
      then env.redis.set_plain t key value keys
      else env.redis.set_ex t key value ttl_seconds keys

  unfoldable pub set : (key value : String) → Option ℕ → Action (Unit {0})
  set key value ttl_seconds = do
    t ← now env
    λ w.
        stored (set_command t key value ttl_seconds w.keys) (λ ks. record w { keys = ks })
          redis_error w

  unfoldable pub delete : String → Action (Unit {0})
  delete key = do
    t ← now env
    λ w. stored (env.redis.del t key w.keys) (λ ks. record w { keys = ks }) redis_error w

  unfoldable pub exists : String → Action Bool
  exists key = do
    t ← now env
    λ w. (do n ← or_throw (env.redis.exists t key w.keys) redis_error; pure (ltb 0 n)) w

  unfoldable pub expire : String → ℕ → Action (Unit {0})
  expire key ttl_seconds = do
    t ← now env
    λ w.
        stored (env.redis.expire t key ttl_seconds w.keys) (λ ks. record w { keys = ks })
          redis_error w

  unfoldable pub increment : String → Action ℕ
  increment key = do
    t ← now env
    λ w.
        (do
          r ← or_throw (env.redis.incr t key w.keys) redis_error
          λ w'. (ok r.0, record w' { keys = r.1 }))
          w
