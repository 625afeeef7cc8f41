-- ===== src/Tests/Gateway.antt =====
-- Uses of the theorems on the gateway.
use bankos.Prelude.{
  ℕ, ◌+◌, ◌≤◌, suc, String, ◌≡◌, ◌⊎◌, ◌*◌, refl, false, Option, none, some, [], ◌∷◌, ◌===◌,
  if◌then◌else◌,
}
use Prim.Native.Nat.{◌^◌}
use bankos.Gateway.Auth.{
  GatewayClaims, role_list, Verified, decoded, json_web_token_error, next, user_id_of, set_user_id,
  set_roles, inject, admit, check_parts, check_header, authenticate,
}
use bankos.Gateway.Auth.Trust.{IsTrusted, authenticate_trusts}
use bankos.Gateway.Resilience.{ProxyError, RetryConfig, execute_with_retry}
use bankos.Gateway.Resilience.Bounds.{execute_with_retry-bounds}
use bankos.Gateway.Security.{delete_truthy, sanitize_headers}
use bankos.Http.{Headers, header, delete_header, set_header, is_truthy}
use bankos.Text.{split_spaces, grow_first, join_commas}

abbrev claims : GatewayClaims
claims = record { sub = some "u1"; user_id = none; roles = role_list ("user" ∷ "auditor" ∷ []) }

abbrev verify : String → Verified
verify token = if token === "good" then decoded claims else json_web_token_error

-- A client that claims to be an administrator.
abbrev forged : Headers
forged =
    ("x-user-roles", "admin")
    ∷ ("x-user-email", "root@bank.org")
    ∷ ("authorization", "Bearer good")
    ∷ []

abbrev passed : Headers
passed =
    ("x-authenticated-user", "true")
    ∷ ("x-user-roles", "user,auditor")
    ∷ ("x-user-id", "u1")
    ∷ ("authorization", "Bearer good")
    ∷ []

forged_passes : authenticate verify (sanitize_headers forged) ≡ next passed
unfolding authenticate check_header check_parts admit inject set_roles set_user_id user_id_of
    sanitize_headers delete_truthy header delete_header set_header is_truthy split_spaces grow_first
    join_commas
forged_passes = refl

authenticate_trusts_example :
    (auth : String) × (header "authorization" (sanitize_headers forged) ≡ some auth)
    × (token : String) × (split_spaces auth ≡ "Bearer" ∷ token ∷ [])
    × (claims : GatewayClaims) × (verify token ≡ decoded claims)
    × IsTrusted claims passed
authenticate_trusts_example = authenticate_trusts verify forged passed forged_passes

abbrev retries : RetryConfig
retries = record { retry_count = some 3; retry_delay_ms = 1000 }

abbrev timeout : ProxyError
timeout = record { error_type = some "timeout"; code = none; message = none }

-- The calls and the milliseconds waited so far.
abbrev Counters : Type 0
Counters = ℕ × ℕ

abbrev fire : Counters → Option ProxyError × Counters
fire s = (some timeout, (suc s.0, s.1))

abbrev sleep : ℕ → Counters → Counters
sleep ms s = (s.0, s.1 + ms)

abbrev outcome : Counters
outcome = (execute_with_retry retries fire (λ s. false) sleep "GET" (0, 0)).1

execute_with_retry-bounds_example :
    ((retries.retry_count ≡ none) × (outcome ≡ (0, 0)))
    ⊎ ((n : ℕ) × (retries.retry_count ≡ some n)
        × (1 ≤ outcome.0)
        × (outcome.0 ≤ 1 + n)
        × (outcome.1 + 1000 ≤ 0 + 1000 * 2 ^ n))
execute_with_retry-bounds_example =
    execute_with_retry-bounds retries fire (λ s. false) sleep (λ s. s.0) (λ s. s.1) (λ s. refl)
      (λ s. refl) (λ ms s. refl) (λ ms s. refl) "GET" (0, 0)
