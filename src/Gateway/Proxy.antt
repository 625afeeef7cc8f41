-- ===== src/Gateway/Proxy.antt =====
-- routes/proxy.ts: which service a path leads to, the headers that it is called with, and what becomes of
-- an error of the proxy.
pub mod Carried
use bankos.Prelude.{String, Bool, not, Option, none, some, ℕ, if◌then◌else◌}
use bankos.Gateway.Resilience.{ProxyError, is_text}
use bankos.Http.{Headers, set_header, delete_header, is_truthy, Answer}

pub data Service : Type 0 where
  identity : Service
  customer360 : Service
  credit_risk : Service

-- The prefix under which a service is mounted.
unfoldable pub prefix : Service → String
prefix identity = "/api/v1/auth"
prefix customer360 = "/api/v1/customers"
prefix credit_risk = "/api/v1/risk"

-- The first service whose prefix the path is under; `under` is the router of express.
unfoldable pub service_for : (under : (prefix path : String) → Bool) → String → Option Service
unfolding prefix
service_for under path =
    if under (prefix identity) path
    then some identity
    else if under (prefix customer360) path
    then some customer360
    else if under (prefix credit_risk) path
    then some credit_risk
    else none

-- `proxyReq`: the headers of the request to the service, but those that the package sets itself.
unfoldable pub proxy_headers : (correlation_id : String) → Headers → Headers
proxy_headers correlation_id headers =
    let kept = delete_header "keep-alive" (delete_header "connection" headers) in
    if is_truthy (some correlation_id)
    then set_header "x-correlation-id" correlation_id kept
    else kept

pub data Reported : Type 0 where
  rejected : ProxyError → Reported
  answered : Answer → Reported
  ignored : Reported

unfoldable pub gateway_status : Option String → ℕ
unfolding is_text
gateway_status code =
    if is_text code "ECONNREFUSED" then 503 else if is_text code "ETIMEDOUT" then 504 else 502

-- `error`: `has_reject` says whether the resilient wrapper has put its `reject` on the response.
unfoldable pub report_error : (has_reject headers_sent : Bool) → ProxyError → Reported
report_error has_reject headers_sent e =
    if has_reject
    then rejected e
    else if not headers_sent
    then answered (record {
      status = gateway_status e.code;
      error = "Gateway Error";
      message = "Downstream service is currently unavailable.";
    })
    else ignored
