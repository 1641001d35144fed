-- ===== src/Http.antt =====
-- internal/server/http.go with internal/server/errors.go and the route of internal/server/metrics.go:
-- the HTTP server in front of the hub. A path is what ServeMux matches, after it cleaned it.
pub mod Gate
pub mod Upgrades
mod Examples
use discord_proxy_rpc.Base.{
  ℕ, suc, ◌+◌, ◌^◌, ◌≡◌, Bool, true, false, not, ◌&&◌, ◌||◌, Option, none, some, List, [], ◌∷◌,
  ◌++◌, Text, codes, text_eq, ℤ, pos, ltb_ℤ, is_nil, ◌==◌, if◌then◌else◌, strip_prefix, reverse,
}
use discord_proxy_rpc.Activity.{PresenceSnapshot}
use discord_proxy_rpc.Messages.{state_connected}
use discord_proxy_rpc.RateLimit.{RateLimiter, allow}
use discord_proxy_rpc.Connections.{ConnectionTracker, WsHandler, Upgrade, Reply}
use discord_proxy_rpc.Connections
use discord_proxy_rpc.Auth.{
  Request, AuthConfig, Cookie, bearer_auth, extract_query_token, set_auth_cookie,
}

abbrev pub err_code_unauthorized : Text
err_code_unauthorized = codes "AUTH_001"

abbrev pub err_code_internal : Text
err_code_internal = codes "INT_001"

abbrev pub err_code_payload_too_large : Text
err_code_payload_too_large = codes "REQ_001"

abbrev pub err_code_rate_limited : Text
err_code_rate_limited = codes "REQ_002"

-- Where the options set a pointer or a function, it is there or nil. `auth` is that of the handler
-- of upgrades too, and is BearerAuthFunc of a configuration.
pub record Server : Type 0 where
  pub auth : Option AuthConfig
  pub ws_path : Text
  pub rate_limiter : Option RateLimiter
  pub ws_handler : WsHandler
  pub metrics : Bool

pub data ServerOption : Type 0 where
  with_auth : AuthConfig → ServerOption
  with_ws_path : Text → ServerOption
  with_rate_limiter : RateLimiter → ServerOption
  with_connection_tracker : ConnectionTracker → ServerOption
  with_metrics : ServerOption

-- The tracker reaches the handler once all options are applied; no option reads it before.
abbrev pub apply_option : Server → ServerOption → Server
apply_option s (with_auth cfg) = record s { auth = some cfg }
apply_option s (with_ws_path path) = if is_nil path then s else record s { ws_path = path }
apply_option s (with_rate_limiter rl) = record s { rate_limiter = some rl }
apply_option s (with_connection_tracker ct) = record s { ws_handler = record { tracker = some ct } }
apply_option s with_metrics = record s { metrics = true }

unfoldable pub apply_options : Server → List ServerOption → Server
apply_options s [] = s
apply_options s (o ∷ opts) = apply_options (apply_option s o) opts

abbrev pub has_path : Text → List Text → Bool
has_path p [] = false
has_path p (q ∷ qs) = if text_eq q p then true else has_path p qs

-- The patterns that are registered beside that of the upgrades.
abbrev pub fixed_routes : Bool → List Text
fixed_routes metrics =
    codes "/"
    ∷ codes "/api/presence"
    ∷ codes "/api/state"
    ∷ codes "/health"
    ∷ codes "/healthz"
    ∷ codes "/readyz"
    ∷ (if metrics then codes "/metrics" ∷ [] else [])

-- NewServer: `none` is the panic of ServeMux when a pattern is registered twice.
unfoldable pub new_server : List ServerOption → Option Server
new_server opts =
    let s =
      apply_options
        (record {
          auth = none;
          ws_path = codes "/ws";
          rate_limiter = none;
          ws_handler = record { tracker = none };
          metrics = false;
        })
        opts in
    if has_path s.ws_path (fixed_routes s.metrics) then none else some s

-- What the server reads while it handles one request: the clock, twice, the outcome of an upgrade,
-- what the getters return, the file index.html, and net.SplitHostPort, whose error is `none`.
pub record Moment : Type 0 where
  pub now : ℕ
  pub stamp : ℕ
  pub upgrade : Upgrade
  pub current : PresenceSnapshot
  pub ipc_state : Text
  pub index : Option Text
  pub split_host_port : Text → Option Text

-- An answer; the body of a file is that of http.FileServerFS.
pub data Response : Type 0 where
  api_error : ℕ → Text → Response
  unauthorized_page : Response
  dashboard : Text → Response
  asset : Text → Response
  presence_json : PresenceSnapshot → Response
  state_json : Text → Response
  health_json : Text → Response
  healthz_json : Response
  readyz_json : Bool → Response
  metrics_text : Response
  from_ws : Reply → Response

-- What a handler leaves: the server, its answer, and the cookie that it sets.
abbrev pub Handled : Type 0
Handled = Server × (Response × Option Cookie)

abbrev pub trim_prefix : Text → Text → Text
trim_prefix prefix s = elim (strip_prefix prefix s) [ none ↦ s | some rest ↦ rest ]

abbrev pub trim_suffix : Text → Text → Text
trim_suffix suffix s = elim (strip_prefix (reverse suffix) (reverse s)) [
  | none ↦ s
  | some front ↦ reverse front
]

unfoldable pub extract_ip : Moment → Text → Text
extract_ip m addr = elim (m.split_host_port addr) [
  | some host ↦ host
  | none ↦ trim_suffix (codes "]") (trim_prefix (codes "[") addr)
]

-- html.EscapeString.
abbrev pub escape_byte : ℕ → Text
escape_byte b =
    if b == b'&'
    then codes "&amp;"
    else if b == 39
    then codes "&#39;"
    else if b == b'<'
    then codes "&lt;"
    else if b == b'>'
    then codes "&gt;"
    else if b == 34
    then codes "&#34;"
    else b ∷ []

unfoldable pub escape_string : Text → Text
escape_string [] = []
escape_string (b ∷ s) = escape_byte b ++ escape_string s

-- `strings.Replace(page, old, value, 1)` for an `old` that is not empty.
unfoldable pub replace_first : Text → Text → Text → Text
replace_first old value [] = []
replace_first old value (b ∷ s) =
    let rest = replace_first old value s in
    elim (strip_prefix old (b ∷ s)) [ none ↦ b ∷ rest | some behind ↦ value ++ behind ]

unfoldable pub serve_dashboard_index : Server → Moment → Response
serve_dashboard_index s m = elim m.index [
  | none ↦ api_error 500 err_code_internal
  | some page ↦ dashboard (replace_first (codes "__WS_PATH__") (escape_string s.ws_path) page)
]

pub handle_dashboard : Server → Moment → Request → Response
handle_dashboard s m r =
    if text_eq r.path (codes "/") || text_eq r.path (codes "/index.html")
    then serve_dashboard_index s m
    else asset r.path

abbrev pub handle_presence : Moment → Response
handle_presence m = presence_json m.current

abbrev pub handle_state : Moment → Response
handle_state m = state_json m.ipc_state

abbrev pub handle_health : Moment → Response
handle_health m = health_json m.ipc_state

pub handle_readyz : Moment → Response
handle_readyz m = readyz_json (text_eq m.ipc_state state_connected)

-- The cookie that an accepted request with a token in its URL is answered with.
abbrev pub query_cookie : Request → Option Cookie
query_cookie r =
    let token = extract_query_token r in
    if is_nil token then none else some (set_auth_cookie r token)

-- `next` is what the handler behind the gate answers.
unfoldable pub require_auth : Server → Request → Bool → Response → Handled
require_auth s r api_route next = elim s.auth [
  | none ↦ (s, (next, none))
  | some cfg ↦
      if bearer_auth cfg r
      then (s, (next, query_cookie r))
      else if api_route
      then (s, (api_error 401 err_code_unauthorized, none))
      else (s, (unauthorized_page, none))
]

-- AuthMiddleware, which the program itself does not install.
pub auth_middleware : AuthConfig → Request → Response → Response
auth_middleware cfg r next = if bearer_auth cfg r then next else api_error 401 err_code_unauthorized

-- The handler of upgrades, with the verdict of its own auth function.
abbrev pub verdict : Option AuthConfig → Request → Option Bool
verdict none r = none
verdict (some cfg) r = some (bearer_auth cfg r)

pub serve_ws : Server → Moment → Request → Handled
serve_ws s m r =
    let h = Connections.serve_http s.ws_handler (verdict s.auth r) m.upgrade in
    (record s { ws_handler = h.0 }, (from_ws h.1, none))

pub rate_limit_ws : Server → Moment → Request → Handled
rate_limit_ws s m r = elim s.rate_limiter [
  | none ↦ serve_ws s m r
  | some rl ↦
      let a = allow rl (extract_ip m r.remote_addr) m.now m.stamp in
      let s' = record s { rate_limiter = some a.0 } in
      if not a.1 then (s', (api_error 429 err_code_rate_limited, none)) else serve_ws s' m r
]

pub data Route : Type 0 where
  to_dashboard to_ws to_presence to_state to_health to_healthz to_readyz to_metrics : Route

-- The pattern that ServeMux matches: an exact one, or else "/". `ws_path` is a path without a final
-- slash, wildcards, a method or a host.
unfoldable pub match_route : Server → Text → Route
match_route s path =
    if text_eq path s.ws_path
    then to_ws
    else if text_eq path (codes "/api/presence")
    then to_presence
    else if text_eq path (codes "/api/state")
    then to_state
    else if text_eq path (codes "/health")
    then to_health
    else if text_eq path (codes "/healthz")
    then to_healthz
    else if text_eq path (codes "/readyz")
    then to_readyz
    else if s.metrics && text_eq path (codes "/metrics")
    then to_metrics
    else to_dashboard

unfoldable pub dispatch : Server → Moment → Request → Route → Handled
dispatch s m r to_dashboard = require_auth s r false (handle_dashboard s m r)
dispatch s m r to_ws = rate_limit_ws s m r
dispatch s m r to_presence = require_auth s r true (handle_presence m)
dispatch s m r to_state = require_auth s r true (handle_state m)
dispatch s m r to_health = (s, (handle_health m, none))
dispatch s m r to_healthz = (s, (healthz_json, none))
dispatch s m r to_readyz = (s, (handle_readyz m, none))
dispatch s m r to_metrics = (s, (metrics_text, none))

abbrev pub max_request_body_bytes : ℤ
max_request_body_bytes = pos 1_048_576

-- ServeHTTP. No handler reads the body that MaxBytesReader limits, and only the handler of upgrades
-- can panic, which recovers by itself.
unfoldable pub serve_http : Server → Moment → Request → Handled
serve_http s m r =
    let handled = dispatch s m r (match_route s r.path) in
    if ltb_ℤ max_request_body_bytes r.content_length
    then (s, (api_error 413 err_code_payload_too_large, none))
    else handled
