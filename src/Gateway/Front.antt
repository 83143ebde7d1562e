-- ===== src/Gateway/Front.antt =====
-- ServeHTTP of cmd/mcp-gateway/main.go.
use xiuxian.Base.{ℕ, Bool, true, false, ◌&&◌, ◌||◌, not, Option, none, some, String, if◌then◌else◌}
use xiuxian.Base.Int.{ℤ, negsuc}
use xiuxian.Base.Float.{Float64}
use xiuxian.Base.Text.{str_eq, after_prefix}
use xiuxian.Rules.Units.{Time}
use xiuxian.Limit.{Buckets, RedisAnswer, Allowance, decided, allow, mcp_tool_rate_limit}
use xiuxian.Gateway.{RpcRequest, ServerCall, Forward, rpc_error, sends, call_tool_rpc}

module _ (fl : Float64) where
  open fl use {F}

  -- What ServeHTTP does with a request: a status, with a JSON-RPC error or without, a result that it
  -- makes itself, or a tool call that it forwards with its authorization.
  pub data Response : Type 0 where
    http_status : ℕ → Response
    http_error : (status : ℕ) → (code : ℤ) → (message : String) → Response
    initialized tool_list : Response
    forwards : String → ServerCall → Response

  unfoldable pub forward_response : String → Forward → Response
  forward_response authorization (rpc_error code message) = http_error 200 code message
  forward_response authorization (sends c) = forwards authorization c

  unfoldable pub limited_response : Allowance → String → RpcRequest F → Response
  limited_response (decided true) authorization r =
      forward_response authorization (call_tool_rpc fl r)
  limited_response (decided false) authorization r =
      http_error 429 (negsuc 32002) "role call budget exceeded"
  limited_response a authorization r = http_error 503 (negsuc 32003) "role call budget unavailable"

  -- The request's body, if it decodes.
  unfoldable pub rpc_response :
      RedisAnswer → Time → String → Option (RpcRequest F) → Buckets fl → Response × Buckets fl
  rpc_response redis now authorization none b = (http_error 400 (negsuc 32699) "parse error", b)
  rpc_response redis now authorization (some r) b =
      let (allowance, after) =
        allow fl redis now "mcp_tool" authorization (mcp_tool_rate_limit fl) b in
      if str_eq r.method "initialize"
      then (initialized, b)
      else if str_eq r.method "notifications/initialized"
      then (http_status 204, b)
      else if str_eq r.method "tools/list"
      then (tool_list, b)
      else if str_eq r.method "tools/call"
      then (limited_response allowance authorization r, after)
      else (http_error 200 (negsuc 32600) "method not found", b)

  -- Whether a health check of the game server succeeds, none if there is no client for it.
  unfoldable pub health_response : Option Bool → Response
  health_response (some false) = http_error 503 (negsuc 32001) "game authority unavailable"
  health_response h = http_status 200

  unfoldable pub serve_http :
      RedisAnswer
      → Time
      → Option Bool
      → (method path authorization : String) → Option (RpcRequest F)
      → Buckets fl
      → Response × Buckets fl
  serve_http redis now healthy method path authorization body b =
      if str_eq method "GET" && str_eq path "/healthz"
      then (health_response healthy, b)
      else if not (str_eq method "POST") || not (str_eq path "/mcp")
      then (http_status 404, b)
      else elim (after_prefix "Bearer xiu_" authorization) [
        | none ↦ (http_error 401 (negsuc 32000) "valid role API Key required", b)
        | some _ ↦ rpc_response redis now authorization body b
      ]
