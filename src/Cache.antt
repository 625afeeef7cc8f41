-- ===== src/Cache.antt =====
-- infrastructure/redis/RedisTokenBlacklistService.ts. A call that the client refuses is thrown on.
pub mod Laws
pub mod Blacklist
pub mod RateLimit
pub mod Values
pub mod Memory
use Prim.Native.String
use bankos.Prelude.{ℕ, String, Bool, ltb}
use bankos.Runtime.Packages.{Packages}
use bankos.Runtime.Action.{Action, now, or_throw, pure, ◌>>=◌, stored, redis_error}

module _ (env : Packages) where
  unfoldable pub get_blacklist_key : String → String
  get_blacklist_key jti = String.◌++◌ "bl:" jti

  unfoldable pub blacklist_token : String → ℕ → Action (Unit {0})
  blacklist_token jti ttl_seconds = do
    t ← now env
    λ w.
        stored (env.redis.set_ex t (get_blacklist_key jti) "1" ttl_seconds w.keys)
          (λ ks. record w { keys = ks }) redis_error w

  unfoldable pub is_blacklisted : String → Action Bool
  is_blacklisted jti = do
    t ← now env
    λ w.
        (do
          n ← or_throw (env.redis.exists t (get_blacklist_key jti) w.keys) redis_error
          pure (ltb 0 n))
          w

  unfoldable pub remove : String → Action (Unit {0})
  remove jti = do
    t ← now env
    λ w.
        stored (env.redis.del t (get_blacklist_key jti) w.keys) (λ ks. record w { keys = ks })
          redis_error w
