-- ===== src/Cache/RateLimit.antt =====
-- infrastructure/redis/RedisRateLimitService.ts: counting attempts within a window of time. A call that
-- the client refuses is thrown on.
pub mod Window
use bankos.Prelude.{ℕ, String, Bool, true, false, not, ◌===◌, Option, none, some, if◌then◌else◌, ok}
use bankos.Runtime.Packages.{Packages, Ttl, no_key, no_expiry, seconds}
use bankos.Runtime.World.{World}
use bankos.Runtime.Action.{Action, now, or_throw, pure, done, ◌>>=◌, ◌>>◌, stored, redis_error}

-- `ttlResult === -1 || ttlResult === -2`
unfoldable pub is_endless : Ttl → Bool
is_endless no_key = true
is_endless no_expiry = true
is_endless (seconds n) = false

module _ (env : Packages) where
  -- `multi().incr(key).ttl(key).exec()`; a transaction that gives no results throws too.
  unfoldable pub count_up : String → Action (ℕ × Ttl)
  count_up key = do
    t ← now env
    λ w.
        (do
          r ← or_throw (env.redis.multi_incr_ttl t key w.keys) redis_error
          λ w'. (ok r.0, record w' { keys = r.1 }))
          w

  unfoldable pub expire : String → ℕ → Action (Unit {0})
  expire key ttl_seconds = do
    t ← now env
    λ w.
        stored (env.redis.expire t key ttl_seconds w.keys) (λ ks. record w { keys = ks })
          redis_error w

  unfoldable pub increment_attempts : String → ℕ → Action ℕ
  increment_attempts key ttl_seconds = do
    r ← count_up key
    if is_endless r.1 then expire key ttl_seconds else done
    pure r.0

  unfoldable pub reset_attempts : String → Action (Unit {0})
  reset_attempts key = do
    t ← now env
    λ w. stored (env.redis.del t key w.keys) (λ ks. record w { keys = ks }) redis_error w

  -- `result ? parseInt(result, 10) : 0`; `none` is NaN.
  unfoldable pub attempts_of : Option String → Option ℕ
  attempts_of none = some 0
  attempts_of (some text) = if text === "" then some 0 else env.parse_int text

  unfoldable pub get_attempts : String → Action (Option ℕ)
  get_attempts key = do
    t ← now env
    λ w. (do r ← or_throw (env.redis.get t key w.keys) redis_error; pure (attempts_of r)) w
